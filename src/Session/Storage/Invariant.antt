-- ===== src/Session/Storage/Invariant.antt =====
-- What holds of a session storage between two operations, and that the storage's own operations
-- keep it (crates/ri-agent-core/src/harness/session.rs).
use mathlib.Core.List.{Memᴰ}
use ri.Base.{
  ◌≡◌, refl, sym, ap, ◌∙◌, inl, inr, Option, none, some, List, [], ◌∷◌, ◌++◌, Text, arith, length,
  length-append, All, All-append, Bool-cases, text_eq, text_eq_iff, subst,
}
use ri.Base.Maps.{TextMap, get, insert, get-insert, get-insert_self, get-none, contains_key-get}
use ri.Message.{Host}
use ri.Session.Entry.{SessionTreeEntry, ok, id, parent_id, leaf}
use ri.Session.Storage.{
  Env, InMemorySessionStorage, leaf_id_after_entry, update_label_cache, build_labels_by_id,
  validate_existing_leaf, validate_leaf, current_leaf, create_entry_id, leaf_entry, set_leaf_id,
  append_entry, collect_by_id, leaf_id_after,
}
use ri.Session.Storage.Freshness.{HasFreeId, generate_entry_id_fresh}
use ri.Session.Storage.Labels.{build_labels-snoc}
use ri.Session.Path.Rank.{HasAges, IsKnown, insert-HasAges}

module _ {H : Host} where
  abbrev pub IsListed : TextMap (SessionTreeEntry H) → List (SessionTreeEntry H) → Type 0
  IsListed m es = (k : Text) (e : SessionTreeEntry H) → get m k ≡ some e → Memᴰ e es

  -- Parents are older entries, the leaf is an entry, the map and the list hold the same entries,
  -- and the map, the label cache and the leaf are what the entries say.
  pub record IsValid (s : InMemorySessionStorage H) : Type 0 where
    pub ages : HasAges (get s.by_id) (length s.entries)
    pub leaf_known : IsKnown s.by_id s.leaf_id
    pub indexed : All (λ e. get s.by_id (id e) ≡ some e) s.entries
    pub listed : IsListed s.by_id s.entries
    pub labelled : s.labels_by_id ≡ build_labels_by_id s.entries
    pub collected : s.by_id ≡ collect_by_id [] s.entries
    pub leaf_last : s.leaf_id ≡ leaf_id_after none s.entries

  -- What an entry points to with its leaf marker, if it is one.
  abbrev pub TargetIsKnown : TextMap (SessionTreeEntry H) → SessionTreeEntry H → Type 0
  TargetIsKnown m (leaf h target) = IsKnown m target
  TargetIsKnown m _ = Unit

  pub IsKnown-insert :
      (m : TextMap (SessionTreeEntry H)) (new : SessionTreeEntry H)
      → get m (id new) ≡ none
      → (o : Option Text) → IsKnown m o
      → IsKnown (insert m (id new) new) o
  IsKnown-insert m new fresh none known = tt
  IsKnown-insert m new fresh (some k) (q, found) =
      (q, ground (arith, get-insert m (id new) new k, text_eq_iff (id new) k))

  indexed-insert :
      (m : TextMap (SessionTreeEntry H)) (new : SessionTreeEntry H)
      → get m (id new) ≡ none
      → (es : List (SessionTreeEntry H)) → All (λ e. get m (id e) ≡ some e) es
      → All (λ e. get (insert m (id new) new) (id e) ≡ some e) es
  indexed-insert m new fresh [] h = tt
  indexed-insert m new fresh (e ∷ es) h = (
    ground (arith, get-insert m (id new) new (id e), text_eq_iff (id new) (id e), h.0),
    indexed-insert m new fresh es h.1,
  )

  Memᴰ-weaken :
      {e : SessionTreeEntry H} (es fs : List (SessionTreeEntry H)) → Memᴰ e es → Memᴰ e (es ++ fs)
  Memᴰ-weaken [] fs (h) = elim h [ ]
  Memᴰ-weaken (x ∷ es) fs (Memᴰ.head p) = Memᴰ.head p
  Memᴰ-weaken (x ∷ es) fs (Memᴰ.tail m) = Memᴰ.tail (Memᴰ-weaken es fs m)

  Memᴰ-last :
      {e x : SessionTreeEntry H} (es : List (SessionTreeEntry H)) → e ≡ x → Memᴰ e (es ++ x ∷ [])
  Memᴰ-last [] p = Memᴰ.head p
  Memᴰ-last (y ∷ es) p = Memᴰ.tail (Memᴰ-last es p)

  IsListed-insert :
      (m : TextMap (SessionTreeEntry H)) (new : SessionTreeEntry H) (es : List (SessionTreeEntry H))
      → IsListed m es
      → IsListed (insert m (id new) new) (es ++ new ∷ [])
  IsListed-insert m new es listed k e found = elim (Bool-cases (text_eq (id new) k)) [
    | inl hit ↦ Memᴰ-last es (ground (arith, get-insert m (id new) new k))
    | inr miss ↦
        Memᴰ-weaken es (new ∷ []) (listed k e (ground (arith, get-insert m (id new) new k)))
  ]

  leaf-IsKnown_after :
      (m : TextMap (SessionTreeEntry H)) (new : SessionTreeEntry H)
      → get m (id new) ≡ none
      → TargetIsKnown m new
      → IsKnown (insert m (id new) new) (leaf_id_after_entry new)
  unfolding leaf_id_after_entry
  leaf-IsKnown_after m (leaf h target) fresh known =
      IsKnown-insert m (leaf h target) fresh target known
  leaf-IsKnown_after m new fresh known = (new, get-insert_self m (id new) new)

  collect_by_id-snoc :
      (m : TextMap (SessionTreeEntry H)) (es : List (SessionTreeEntry H)) (e : SessionTreeEntry H)
      → collect_by_id m (es ++ e ∷ []) ≡ insert (collect_by_id m es) (id e) e
  unfolding collect_by_id
  collect_by_id-snoc m [] e = refl
  collect_by_id-snoc m (x ∷ es) e = collect_by_id-snoc (insert m (id x) x) es e

  leaf_id_after-snoc :
      (o : Option Text) (es : List (SessionTreeEntry H)) (e : SessionTreeEntry H)
      → leaf_id_after o (es ++ e ∷ []) ≡ leaf_id_after_entry e
  unfolding leaf_id_after
  leaf_id_after-snoc o [] e = refl
  leaf_id_after-snoc o (x ∷ es) e = leaf_id_after-snoc (leaf_id_after_entry x) es e

  grown :
      (s : InMemorySessionStorage H) (new : SessionTreeEntry H)
      → IsValid s
      → get s.by_id (id new) ≡ none
      → IsKnown s.by_id (parent_id new)
      → HasAges (get (insert s.by_id (id new) new)) (length (s.entries ++ new ∷ []))
  grown s new v fresh known =
      subst (HasAges (get (insert s.by_id (id new) new)))
        (omega (arith, length-append s.entries (new ∷ [])))
        (insert-HasAges s.by_id (length s.entries) new fresh known v.ages)

  -- Appending keeps the storage valid: an entry under a fresh id, whose parent and marked leaf, if
  -- any, are entries.
  pub append_entry-IsValid :
      (s : InMemorySessionStorage H) (new : SessionTreeEntry H)
      → IsValid s
      → get s.by_id (id new) ≡ none
      → IsKnown s.by_id (parent_id new)
      → TargetIsKnown s.by_id new
      → IsValid (append_entry s new)
  unfolding append_entry
  append_entry-IsValid s new v fresh known target = record {
    ages = grown s new v fresh known;
    leaf_known = leaf-IsKnown_after s.by_id new fresh target;
    indexed =
        All-append (λ e. get (insert s.by_id (id new) new) (id e) ≡ some e) s.entries (new ∷ [])
          (indexed-insert s.by_id new fresh s.entries v.indexed)
          (get-insert_self s.by_id (id new) new, tt);
    listed = IsListed-insert s.by_id new s.entries v.listed;
    labelled =
        ap (λ l. update_label_cache l new) v.labelled ∙ sym (build_labels-snoc s.entries new);
    collected =
        ap (λ m. insert m (id new) new) v.collected ∙ sym (collect_by_id-snoc [] s.entries new);
    leaf_last = sym (leaf_id_after-snoc none s.entries new);
  }

  validated :
      (m : TextMap (SessionTreeEntry H)) (o : Option Text)
      → IsKnown m o
      → (validate_leaf m o ≡ ok tt) × (validate_existing_leaf m o ≡ ok tt)
  unfolding validate_leaf validate_existing_leaf
  validated m none known = (refl, refl)
  validated m (some k) (q, found) =
      (rw (contains_key-get m k found), rw (contains_key-get m k found))

  pub current_leaf_ok : (s : InMemorySessionStorage H) → IsValid s → current_leaf s ≡ ok s.leaf_id
  unfolding current_leaf
  current_leaf_ok s v = rw (validated s.by_id s.leaf_id v.leaf_known).1

  pub fresh_id :
      (env : Env) (s : InMemorySessionStorage H)
      → HasFreeId 100 0 env.uuid s.by_id
      → get s.by_id (create_entry_id env s) ≡ none
  unfolding create_entry_id
  fresh_id env s free = get-none s.by_id _ (generate_entry_id_fresh env.uuid s.by_id free)

  -- Moving the leaf to an entry, or to none, appends one leaf marker under the old leaf.
  pub set_leaf_id-append :
      (env : Env) (s : InMemorySessionStorage H) (target : Option Text)
      → IsKnown s.by_id target
      → set_leaf_id env s target ≡ ok (append_entry s (leaf_entry env s target))
  unfolding set_leaf_id append_entry update_label_cache leaf_id_after_entry
  set_leaf_id-append env s target known = rw (validated s.by_id target known).0

  pub set_leaf_id-IsValid :
      (env : Env) (s : InMemorySessionStorage H) (target : Option Text)
      → IsValid s
      → HasFreeId 100 0 env.uuid s.by_id
      → IsKnown s.by_id target
      → IsValid (append_entry s (leaf_entry env s target))
  unfolding leaf_entry
  set_leaf_id-IsValid env s target v free known =
      append_entry-IsValid s (leaf_entry env s target) v
        (get-none s.by_id _ (generate_entry_id_fresh env.uuid s.by_id free)) v.leaf_known known
