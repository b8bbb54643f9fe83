-- ===== src/Session/Context/Transform.antt =====
-- Which entries of a branch survive the latest compaction, in session.rs.
use mathlib.Core.List.{append_assoc}
use ri.Base.{
  ℕ, zero, suc, ◌≤◌, ◌≡◌, refl, sym, ap, ◌⊎◌, inl, inr, false, Option, none, some, List, [], ◌∷◌,
  ◌++◌, Text, arith, length, take, drop, is_some, All, Bool-cases, Option-cases, text_eq,
  text_eq_refl, subst,
}
use ri.Message.{Host}
use ri.Session.Entry.{SessionTreeEntry, EntryHead, CompactionFields, id, compaction}
use ri.Session.Context.{
  last_compaction, position, one_further, kept_before, after_compaction,
  default_context_entry_transform,
}
use ri.Session.Tree.Branch.{is_compaction}

one_further-zero : (o : Option ℕ) → ¬ (one_further o ≡ some 0)
one_further-zero none h = ground arith
one_further-zero (some i) h = ground arith

one_further-suc : (o : Option ℕ) (i : ℕ) → one_further o ≡ some (suc i) → o ≡ some i
one_further-suc none i h = ground arith
one_further-suc (some j) i h = ground arith

module _ {H : Host} where
  last_compaction-snoc :
      (found : Option (EntryHead × CompactionFields H)) (es : List (SessionTreeEntry H))
      (e : SessionTreeEntry H)
      → is_compaction e ≡ false
      → last_compaction found (es ++ e ∷ []) ≡ last_compaction found es
  unfolding last_compaction
  last_compaction-snoc found [] e h = ground arith
  last_compaction-snoc found (compaction d c ∷ es) e h = last_compaction-snoc (some (d, c)) es e h
  last_compaction-snoc found (x ∷ es) e h = last_compaction-snoc found es e h

  -- No entry has the id.
  abbrev pub Lacks : Text → List (SessionTreeEntry H) → Type 0
  Lacks k = All (λ e. text_eq (id e) k ≡ false)

  position-append :
      (k : Text) (es fs : List (SessionTreeEntry H)) (i : ℕ)
      → position k es ≡ some i
      → (position k (es ++ fs) ≡ some i)
        × (suc i ≤ length es)
        × (take i (es ++ fs) ≡ take i es)
        × (drop (suc i) (es ++ fs) ≡ drop (suc i) es ++ fs)
  unfolding position
  position-append k [] fs i h = cc
  position-append k (e ∷ es) fs zero h = elim (Bool-cases (text_eq (id e) k)) [
    | inl hit ↦ (rw hit, omega arith, refl, refl)
    | inr miss ↦ absurd (one_further-zero (position k es) (rw miss at h))
  ]
  position-append k (e ∷ es) fs (suc i) h = elim (Bool-cases (text_eq (id e) k)) [
    | inl hit ↦ absurd (ground arith)
    | inr miss ↦
        let (p, short, t, d) =
          position-append k es fs i (one_further-suc (position k es) i (rw miss at h)) in
        (rw (miss, p), omega arith, ap (◌∷◌ e) t, d)
  ]

  position_cons :
      (k : Text) (e : SessionTreeEntry H) (es : List (SessionTreeEntry H)) (i : ℕ)
      → position k es ≡ some i
      → (j : ℕ) × (position k (e ∷ es) ≡ some j)
  unfolding position
  position_cons k e es i h = elim (Bool-cases (text_eq (id e) k)) [
    | inl hit ↦ (0, rw hit)
    | inr miss ↦ (suc i, rw (miss, h))
  ]

  position_head :
      (e : SessionTreeEntry H) (es : List (SessionTreeEntry H)) → position (id e) (e ∷ es) ≡ some 0
  unfolding position
  position_head e es = rw (text_eq_refl (id e))

  last_compaction-position :
      (found : Option (EntryHead × CompactionFields H)) (es : List (SessionTreeEntry H))
      (d : EntryHead) (c : CompactionFields H)
      → last_compaction found es ≡ some (d, c)
      → (found ≡ some (d, c)) ⊎ ((i : ℕ) × (position d.id es ≡ some i))
  unfolding last_compaction
  last_compaction-position found [] d c h = inl h
  last_compaction-position found (compaction d' c' ∷ es) d c h =
      elim (last_compaction-position (some (d', c')) es d c h) [
        | inl same ↦
            let e : d' ≡ d = ground arith in
            inr (
              0,
              subst (λ (x : EntryHead). position x.id (compaction d' c' ∷ es) ≡ some 0) e
                  (position_head (compaction d' c') es),
            )
        | inr (i, p) ↦ inr (position_cons d.id (compaction d' c') es i p)
      ]
  last_compaction-position found (x ∷ es) d c h = elim (last_compaction-position found es d c h) [
    | inl same ↦ inl same
    | inr (i, p) ↦ inr (position_cons d.id x es i p)
  ]

  after-snoc :
      (d : EntryHead) (c : CompactionFields H) (i : ℕ) (es : List (SessionTreeEntry H))
      (e : SessionTreeEntry H)
      → take i (es ++ e ∷ []) ≡ take i es
      → drop (suc i) (es ++ e ∷ []) ≡ drop (suc i) es ++ e ∷ []
      → after_compaction d c i (es ++ e ∷ []) ≡ after_compaction d c i es ++ e ∷ []
  unfolding after_compaction
  after-snoc d c i es e t r = elim (Bool-cases (is_some c.retained_tail)) [
    | inl tail ↦ rw (tail, r)
    | inr walk ↦
        rw (walk, t, r)
          (ap (◌∷◌ (compaction d c)) (
            sym (
              append_assoc (kept_before c.first_kept_entry_id (take i es)) (drop (suc i) es)
                (e ∷ []))))
  ]

  -- An entry that is no compaction, at the end of a branch, is kept at the end, and the entries
  -- that survive before it are the same.
  pub transform-snoc :
      (es : List (SessionTreeEntry H)) (e : SessionTreeEntry H)
      → is_compaction e ≡ false
      → default_context_entry_transform (es ++ e ∷ [])
        ≡ default_context_entry_transform es ++ e ∷ []
  unfolding default_context_entry_transform
  transform-snoc es e h = elim (Option-cases (last_compaction none es)) [
    | inl n ↦ rw (last_compaction-snoc none es e h, n, default_context_entry_transform)
    | inr ((d, c), y) ↦ elim (last_compaction-position none es d c y) [
      | inl impossible ↦ absurd (ground arith)
      | inr (i, p) ↦
          let (p', short, t, r) = position-append d.id es (e ∷ []) i p in
          rw (last_compaction-snoc none es e h, y, p, p', default_context_entry_transform)
            (after-snoc d c i es e t r)
    ]
  ]
