-- ===== src/Session/Tree/Branch.antt =====
-- What the appends and the moves of session.rs do to the active branch.
use mathlib.Core.List.{reverse-cons, append-nil}
use ri.Base.{
  ℕ, suc, ◌≤◌, ◌≡◌, refl, sym, ap, ◌∙◌, Bool, true, false, not, Option, none, some, List, [], ◌∷◌,
  ◌++◌, reverse, Text, arith, length, take, drop, length-take-le_length, reverse-drop-take, retain,
  retain-append, subst, ◌⊎◌, inl, inr,
}
use ri.Base.Maps.{TextMap, get, insert, get-insert_self}
use ri.Message.{Host}
use ri.Session.Entry.{SessionTreeEntry, ok, id, parent_id, is_leaf, leaf, compaction}
use ri.Session.Storage.{
  Env, InMemorySessionStorage, append_entry, get_entry, leaf_entry, leaf_id_after_entry,
  create_entry_id,
}
use ri.Session.Storage.Freshness.{HasFreeId}
use ri.Session.Storage.Invariant.{
  IsValid, TargetIsKnown, append_entry-IsValid, set_leaf_id-IsValid, current_leaf_ok, fresh_id,
}
use ri.Session.Path.{
  get_path_to_root, get_path_to_root_or_compaction, finish_path, has_retained_tail, stop_after,
}
use ri.Session.Path.Chain.{Climbs, climb-Climbs}
use ri.Session.Path.Rank.{HasAges-Climbs, IsKnown}
use ri.Session.Path.Stops.{
  StopsAt, on, top, climb_or_stop-StopsAt, Climbs-StopsAt, StopsAt-insert, found-insert,
}
use ri.Session.Path.Ends.{IsPassed, ends_at, Climbs-IsEnded}
use ri.Session.Tree.{branch}

module _ {H : Host} where
  -- `path` goes from a root down to the entry of the id `k`, each entry the parent of the next.
  abbrev pub IsPathTo : TextMap (SessionTreeEntry H) → Text → List (SessionTreeEntry H) → Type 0
  IsPathTo m k path =
      (e : SessionTreeEntry H) × (es : List (SessionTreeEntry H)) × (get m k ≡ some e)
      × Climbs (get m) e es
      × (path ≡ reverse es)

  -- In a valid storage the walk from any entry ends, with as much fuel as there are entries, and
  -- gives the path from a root to that entry.
  pub get_path_to_root_total :
      (s : InMemorySessionStorage H) (k : Text) (fuel : ℕ)
      → IsValid s
      → IsKnown s.by_id (some k)
      → length s.entries ≤ fuel
      → (path : List (SessionTreeEntry H)) × (get_path_to_root fuel s.by_id (some k)
          ≡ some (ok path))
        × IsPathTo s.by_id k path
  unfolding get_path_to_root
  get_path_to_root_total s k fuel v (e, found) h =
      let (es, c, short) = HasAges-Climbs (get s.by_id) (length s.entries) v.ages k e found in
      (
        reverse es,
        rw (found, get_path_to_root) (climb-Climbs (get s.by_id) fuel [] c (omega arith)),
        (e, es, found, c, refl),
      )

  -- The walk that stops at a compaction ends too. Its path, without the leaf markers, is the part of
  -- the path from the root that begins at the last entry `e` of that path that ends a walk, or at the
  -- root where none does. An entry ends a walk where it is a compaction with a retained tail, or where
  -- the first compaction after it on the path names it as the first entry that is kept.
  pub or_compaction_total :
      (s : InMemorySessionStorage H) (k : Text) (fuel : ℕ)
      → IsValid s
      → IsKnown s.by_id (some k)
      → length s.entries ≤ fuel
      → (before : List (SessionTreeEntry H)) × (e : SessionTreeEntry H) × (after : List
          (SessionTreeEntry H))
        × (get_path_to_root fuel s.by_id (some k) ≡ some (ok (before ++ e ∷ after)))
        × (get_path_to_root_or_compaction fuel (get_entry s) (some k)
            ≡ some (ok (retain (λ d. not (is_leaf d)) (e ∷ after))))
        × IsPassed after
        × ((before ≡ []) ⊎ (ends_at after e ≡ true))
  unfolding get_path_to_root get_path_to_root_or_compaction finish_path get_entry
  or_compaction_total s k fuel v (q, found) h =
      let (es, c, short) = HasAges-Climbs (get s.by_id) (length s.entries) v.ages k q found in
      let (n, w, (e, after, split, passed, why)) = Climbs-IsEnded (get s.by_id) none [] refl tt c in
      let walked : reverse (take n es) ≡ e ∷ after =
        sym (append-nil (reverse (take n es))) ∙ split in
      (
        reverse (drop n es),
        e,
        after,
        rw (found, get_path_to_root)
            (climb-Climbs (get s.by_id) fuel [] c (omega arith)
              ∙ ap (λ p. some (ok p)) (reverse-drop-take n es)
              ∙ ap (λ p. some (ok (reverse (drop n es) ++ p))) walked),
        rw (found, get_path_to_root_or_compaction)
            (climb_or_stop-StopsAt (get s.by_id) fuel [] w
                (omega (arith, length-take-le_length n es))
              ∙ ap (λ p. some (ok (retain (λ d. not (is_leaf d)) p))) walked),
        passed,
        elim why [ inl root ↦ inl (ap reverse root) | inr end ↦ inr end ],
      )

  -- The walk from the leaf, on which the active branch is read.
  branch_StopsAt :
      (s : InMemorySessionStorage H) (k : Text) (e : SessionTreeEntry H) (fuel : ℕ)
      (es : List (SessionTreeEntry H))
      → IsValid s
      → s.leaf_id ≡ some k
      → get s.by_id k ≡ some e
      → StopsAt (get s.by_id) none e es
      → length es ≤ fuel
      → branch fuel s none ≡ some (ok (finish_path es))
  unfolding branch get_path_to_root_or_compaction get_entry
  branch_StopsAt s k e fuel es v l found w h =
      rw (current_leaf_ok s v, l, found, get_path_to_root_or_compaction)
        (climb_or_stop-StopsAt (get s.by_id) fuel [] w h)

  walk_from :
      (s : InMemorySessionStorage H) (k : Text) (e : SessionTreeEntry H) (fuel : ℕ)
      (es : List (SessionTreeEntry H))
      → get s.by_id k ≡ some e
      → StopsAt (get s.by_id) none e es
      → length es ≤ fuel
      → get_path_to_root_or_compaction fuel (get_entry s) (some k) ≡ some (ok (finish_path es))
  unfolding get_path_to_root_or_compaction get_entry
  walk_from s k e fuel es found w h =
      rw (found, get_path_to_root_or_compaction) (climb_or_stop-StopsAt (get s.by_id) fuel [] w h)

  moved_leaf :
      (env : Env) (s : InMemorySessionStorage H) (k : Option Text)
      → (append_entry s (leaf_entry env s k)).leaf_id ≡ k
  unfolding append_entry leaf_entry leaf_id_after_entry
  moved_leaf env s k = refl

  finish-cons :
      (e : SessionTreeEntry H) (es : List (SessionTreeEntry H))
      → is_leaf e ≡ false
      → finish_path (e ∷ es) ≡ finish_path es ++ e ∷ []
  unfolding finish_path
  finish-cons e es n = rw (
    reverse-cons e es,
    retain-append (λ (x : SessionTreeEntry H). not (is_leaf x)) (reverse es) (e ∷ []),
    n,
  )

  abbrev pub is_compaction : SessionTreeEntry H → Bool
  is_compaction (compaction h c) = true
  is_compaction _ = false

  plain :
      (e : SessionTreeEntry H)
      → is_compaction e ≡ false
      → (has_retained_tail e ≡ false) × (stop_after none e ≡ none)
  plain e h = ground arith

  plain_target :
      (m : TextMap (SessionTreeEntry H)) (e : SessionTreeEntry H)
      → is_leaf e ≡ false
      → TargetIsKnown m e
  plain_target m (leaf h target) n = cc
  plain_target m e n = tt

  leaf_after_plain :
      (e : SessionTreeEntry H) → is_leaf e ≡ false → leaf_id_after_entry e ≡ some (id e)
  unfolding leaf_id_after_entry
  leaf_after_plain e h = ground arith

  branch_root :
      (s : InMemorySessionStorage H) (fuel : ℕ)
      → IsValid s
      → s.leaf_id ≡ none
      → branch fuel s none ≡ some (ok (finish_path []))
  unfolding branch get_path_to_root_or_compaction finish_path
  branch_root s fuel v l = rw (current_leaf_ok s v, l)

  leaf_walk :
      (s : InMemorySessionStorage H) (fuel : ℕ) (o : Option Text)
      → IsValid s
      → s.leaf_id ≡ o
      → length s.entries ≤ fuel
      → (es : List (SessionTreeEntry H)) × (branch fuel s none ≡ some (ok (finish_path es)))
        × (length es ≤ length s.entries)
        × ((new : SessionTreeEntry H)
            → parent_id new ≡ o
            → is_compaction new ≡ false
            → get s.by_id (id new) ≡ none
            → StopsAt (get (insert s.by_id (id new) new)) none new (new ∷ es))
  leaf_walk s fuel none v l h = (
    [],
    branch_root s fuel v l,
    omega arith,
    λ new r c fresh. let (t, _) = plain new c in top refl t r,
  )
  leaf_walk s fuel (some k) v l h =
      let (e, found) = subst (IsKnown s.by_id) l v.leaf_known in
      let (es, c, short) = HasAges-Climbs (get s.by_id) (length s.entries) v.ages k e found in
      let (n, w) = Climbs-StopsAt (get s.by_id) none c in
      let shorter = length-take-le_length n es in
      (
        take n es,
        branch_StopsAt s k e fuel (take n es) v l found w (omega arith),
        omega arith,
        λ new r c' fresh.
            let (t, keeps) = plain new c' in
            on refl t r (found-insert s.by_id (id new) new fresh k e found)
              (rw keeps (StopsAt-insert s.by_id (id new) new fresh w)),
      )

  plain-IsValid :
      (s : InMemorySessionStorage H) (new : SessionTreeEntry H)
      → IsValid s
      → get s.by_id (id new) ≡ none
      → parent_id new ≡ s.leaf_id
      → is_leaf new ≡ false
      → IsValid (append_entry s new)
  plain-IsValid s new v fresh r n =
      append_entry-IsValid s new v fresh (rw r v.leaf_known) (plain_target s.by_id new n)

  -- An entry that is appended to a valid storage under its leaf, and that is neither a compaction
  -- nor a leaf marker, is the new end of the active branch.
  pub append_entry-branch :
      (s : InMemorySessionStorage H) (new : SessionTreeEntry H) (fuel : ℕ)
      → IsValid s
      → get s.by_id (id new) ≡ none
      → parent_id new ≡ s.leaf_id
      → is_compaction new ≡ false
      → is_leaf new ≡ false
      → length s.entries ≤ fuel
      → (path : List (SessionTreeEntry H)) × (branch fuel s none ≡ some (ok path))
        × (branch (suc fuel) (append_entry s new) none ≡ some (ok (path ++ new ∷ [])))
  append_entry-branch s new fuel v fresh r c n h =
      let v' = plain-IsValid s new v fresh r n in
      let (es, old, short, grows) = leaf_walk s fuel s.leaf_id v refl h in
      (
        finish_path es,
        old,
        branch_StopsAt (append_entry s new) (id new) new (suc fuel) (new ∷ es) v'
              (unfold append_entry in leaf_after_plain new n)
              (unfold append_entry in get-insert_self s.by_id (id new) new)
              (unfold append_entry in grows new r c fresh) (omega arith)
            ∙ ap (λ p. some (ok p)) (finish-cons new es n),
      )

  pub moved_walk :
      (env : Env) (s : InMemorySessionStorage H) (fuel : ℕ) (k : Option Text)
      → IsValid s
      → HasFreeId 100 0 env.uuid s.by_id
      → IsKnown s.by_id k
      → length s.entries ≤ fuel
      → branch fuel (append_entry s (leaf_entry env s k)) none
        ≡ get_path_to_root_or_compaction fuel (get_entry s) k
  moved_walk env s fuel none v free known h =
      let v' = set_leaf_id-IsValid env s none v free tt in
      branch_root (append_entry s (leaf_entry env s none)) fuel v' (moved_leaf env s none)
      ∙ unfold get_path_to_root_or_compaction finish_path in refl
  moved_walk env s fuel (some k) v free (e, found) h =
      let v' = set_leaf_id-IsValid env s (some k) v free (e, found) in
      let (es, c, short) = HasAges-Climbs (get s.by_id) (length s.entries) v.ages k e found in
      let (n, w) = Climbs-StopsAt (get s.by_id) none c in
      let enough : length (take n es) ≤ fuel = omega (arith, length-take-le_length n es) in
      let new = leaf_entry env s (some k) in
      let fresh : get s.by_id (id new) ≡ none =
        unfold leaf_entry create_entry_id in fresh_id env s free in
      branch_StopsAt (append_entry s new) k e fuel (take n es) v' (moved_leaf env s (some k))
        (unfold append_entry in found-insert s.by_id (id new) new fresh k e found)
        (unfold append_entry in StopsAt-insert s.by_id (id new) new fresh w) enough
      ∙ sym (walk_from s k e fuel (take n es) found w enough)
