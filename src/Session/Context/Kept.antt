-- ===== src/Session/Context/Kept.antt =====
-- The entries that the latest compaction of a branch keeps, in session.rs, against a description
-- of them that goes by no loop and no index.
use ri.Base.{
  ℕ, suc, ◌≡◌, refl, ap, true, false, Option, none, some, List, [], ◌∷◌, ◌++◌, Text, arith, length,
  take, drop, is_some, All, text_eq, text_eq_refl,
}
use ri.Message.{Host}
use ri.Session.Entry.{SessionTreeEntry, EntryHead, CompactionFields, id, compaction}
use ri.Session.Context.{
  last_compaction, position, kept_from, after_compaction, default_context_entry_transform,
}
use ri.Session.Tree.Branch.{is_compaction}
use ri.Session.Context.Transform.{Lacks}

-- The part of `before`, the entries above a compaction, that it keeps: none with a retained tail,
-- with no first entry to keep or with one that is not there, or else all from that entry on.
pub data Keeps {H : Host} (c : CompactionFields H) (before : List (SessionTreeEntry H))
    : List (SessionTreeEntry H) → Type 0 where
  tail : is_some c.retained_tail ≡ true → Keeps c before []
  unset : is_some c.retained_tail ≡ false → c.first_kept_entry_id ≡ none → Keeps c before []
  absent :
      (k : Text)
      → is_some c.retained_tail ≡ false
      → c.first_kept_entry_id ≡ some k
      → Lacks k before
      → Keeps c before []
  from :
      (skipped : List (SessionTreeEntry H)) (first : SessionTreeEntry H)
      (rest : List (SessionTreeEntry H))
      → is_some c.retained_tail ≡ false
      → c.first_kept_entry_id ≡ some (id first)
      → before ≡ skipped ++ first ∷ rest
      → Lacks (id first) skipped
      → Keeps c before (first ∷ rest)

module _ {H : Host} where
  kept_from-true : (k : Text) (es : List (SessionTreeEntry H)) → kept_from true k es ≡ es
  unfolding kept_from
  kept_from-true k [] = refl
  kept_from-true k (e ∷ es) = ground (arith, kept_from-true k es)

  kept_from_absent :
      (k : Text) (es fs : List (SessionTreeEntry H))
      → Lacks k es
      → kept_from false k (es ++ fs) ≡ kept_from false k fs
  unfolding kept_from
  kept_from_absent k [] fs h = refl
  kept_from_absent k (e ∷ es) fs h = rw h.0 (kept_from_absent k es fs h.1)

  kept_from_none :
      (k : Text) (es : List (SessionTreeEntry H)) → Lacks k es → kept_from false k es ≡ []
  unfolding kept_from
  kept_from_none k [] h = refl
  kept_from_none k (e ∷ es) h = rw h.0 (kept_from_none k es h.1)

  kept_from_first :
      (first : SessionTreeEntry H) (rest : List (SessionTreeEntry H))
      → kept_from false (id first) (first ∷ rest) ≡ first ∷ rest
  unfolding kept_from
  kept_from_first first rest =
      rw (text_eq_refl (id first)) (ap (◌∷◌ first) (kept_from-true (id first) rest))

  last_compaction_skip :
      (found : Option (EntryHead × CompactionFields H)) (es fs : List (SessionTreeEntry H))
      (d : EntryHead) (c : CompactionFields H)
      → ((found : Option (EntryHead × CompactionFields H)) → last_compaction found fs ≡ some (d, c))
      → last_compaction found (es ++ fs) ≡ some (d, c)
  unfolding last_compaction
  last_compaction_skip found [] fs d c h = h found
  last_compaction_skip found (compaction d' c' ∷ es) fs d c h =
      last_compaction_skip (some (d', c')) es fs d c h
  last_compaction_skip found (e ∷ es) fs d c h = last_compaction_skip found es fs d c h

  last_compaction_none :
      (found : Option (EntryHead × CompactionFields H)) (es : List (SessionTreeEntry H))
      → All (λ e. is_compaction e ≡ false) es
      → last_compaction found es ≡ found
  unfolding last_compaction
  last_compaction_none found [] h = refl
  last_compaction_none found (compaction d c ∷ es) h = cc (h.0)
  last_compaction_none found (e ∷ es) h = last_compaction_none found es h.1

  position_skip :
      (k : Text) (es fs : List (SessionTreeEntry H)) (e : SessionTreeEntry H)
      → Lacks k es
      → text_eq (id e) k ≡ true
      → (position k (es ++ e ∷ fs) ≡ some (length es))
        × (take (length es) (es ++ e ∷ fs) ≡ es)
        × (drop (suc (length es)) (es ++ e ∷ fs) ≡ fs)
  unfolding position
  position_skip k [] fs e h hit = (rw hit, refl, refl)
  position_skip k (x ∷ es) fs e h hit =
      let (p, t, r) = position_skip k es fs e h.1 hit in (rw (h.0, p), ap (◌∷◌ x) t, r)

  Keeps-after :
      (d : EntryHead) (c : CompactionFields H) (i : ℕ)
      (es before after kept : List (SessionTreeEntry H))
      → take i es ≡ before
      → drop (suc i) es ≡ after
      → Keeps c before kept
      → after_compaction d c i es ≡ compaction d c ∷ (kept ++ after)
  unfolding after_compaction
  Keeps-after d c i es before after kept t r (tail s) = rw (s, r)
  Keeps-after d c i es before after kept t r (unset s f) = rw (s, f, r)
  Keeps-after d c i es before after kept t r (absent k s f l) =
      rw (s, f, r, t, kept_from_none k before l)
  Keeps-after d c i es before after kept t r (from skipped first rest s f e l) = rw (
    s,
    f,
    r,
    t,
    e,
    kept_from_absent (id first) skipped (first ∷ rest) l,
    kept_from_first first rest,
  )

  -- In a branch whose last compaction has an id that no entry before it has, the entries that
  -- survive are the compaction, what it keeps of those before, and all those after.
  pub transform_last :
      (before after kept : List (SessionTreeEntry H)) (d : EntryHead) (c : CompactionFields H)
      → Lacks d.id before
      → All (λ e. is_compaction e ≡ false) after
      → Keeps c before kept
      → default_context_entry_transform (before ++ compaction d c ∷ after)
        ≡ compaction d c ∷ (kept ++ after)
  unfolding default_context_entry_transform
  transform_last before after kept d c l n k =
      let (p, t, r) = position_skip d.id before after (compaction d c) l (text_eq_refl d.id) in
      rw
        (
          last_compaction_skip none before (compaction d c ∷ after) d c
              (unfold last_compaction in λ found. last_compaction_none (some (d, c)) after n),
          p,
          default_context_entry_transform,
        )
        (Keeps-after d c (length before) (before ++ compaction d c ∷ after) before after kept t r k)
