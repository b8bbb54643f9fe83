-- ===== src/Session/Path/Rank.antt =====
-- Why the walks of session.rs end: in a storage that grew by appending, each entry's parent is an
-- older entry.
use mathlib.Core.Path.{subst₂}
use ri.Base.{
  ℕ, zero, suc, ◌≤◌, ◌<◌, ◌≡◌, refl, inl, inr, true, false, Option, none, some, List, [], ◌∷◌, Text,
  arith, length, Option-cases, Bool-cases, if◌then◌else◌, text_eq, text_eq_iff,
}
use ri.Base.Maps.{TextMap, get, insert, get-insert}
use ri.Message.{Host}
use ri.Session.Entry.{SessionTreeEntry, id, parent_id}
use ri.Session.Path.Chain.{Climbs, root, up}

module _ {H : Host} where
  -- The entry `e` under the key `k`: it has that id, an age below `n`, and no parent or an older one.
  pub record IsOlder (lookup : Text → Option (SessionTreeEntry H)) (age : Text → ℕ) (n : ℕ)
      (k : Text) (e : SessionTreeEntry H) : Type 0 where
    pub own_id : id e ≡ k
    pub bounded : age k < n
    pub parent_older :
        (p : Text)
        → parent_id e ≡ some p
        → (q : SessionTreeEntry H) × (lookup p ≡ some q) × (age p < age k)

  -- Ages below `n` under which every parent is older than its child.
  abbrev pub HasAges : (Text → Option (SessionTreeEntry H)) → ℕ → Type 0
  HasAges lookup n =
      (age : Text → ℕ) × ((k : Text) (e : SessionTreeEntry H)
        → lookup k ≡ some e
        → IsOlder lookup age n k e)

  chain_bounded :
      (lookup : Text → Option (SessionTreeEntry H)) (n : ℕ) (a : HasAges lookup n) (fuel : ℕ)
      (k : Text) (e : SessionTreeEntry H)
      → lookup k ≡ some e
      → a.0 k < fuel
      → (es : List (SessionTreeEntry H)) × Climbs lookup e es × (length es ≤ suc (a.0 k))
  chain_bounded lookup n a zero k e found h = absurd (omega arith)
  chain_bounded lookup n a (suc fuel) k e found h = elim (Option-cases (parent_id e)) [
    | inl r ↦ (e ∷ [], root r, omega arith)
    | inr (p, r) ↦
        let (q, known, older) = (a.1 k e found).parent_older p r in
        let (es, c, short) = chain_bounded lookup n a fuel p q known (omega arith) in
        (e ∷ es, up r known c, omega arith)
  ]

  -- Every entry has a chain up to a root, of `n` entries at most.
  pub HasAges-Climbs :
      (lookup : Text → Option (SessionTreeEntry H)) (n : ℕ)
      → HasAges lookup n
      → (k : Text) (e : SessionTreeEntry H) → lookup k ≡ some e
      → (es : List (SessionTreeEntry H)) × Climbs lookup e es × (length es ≤ n)
  HasAges-Climbs lookup n a k e found =
      let (es, c, short) = chain_bounded lookup n a n k e found (a.1 k e found).bounded in
      (es, c, omega (arith, (a.1 k e found).bounded))

  abbrev pub IsKnown : TextMap (SessionTreeEntry H) → Option Text → Type 0
  IsKnown m none = Unit
  IsKnown m (some p) = (q : SessionTreeEntry H) × (get m p ≡ some q)

  pub known_parent :
      (m : TextMap (SessionTreeEntry H)) (o : Option Text)
      → IsKnown m o
      → (p : Text) → o ≡ some p
      → (q : SessionTreeEntry H) × (get m p ≡ some q)
  known_parent m none h p e = absurd (ground arith)
  known_parent m (some k) h p e = (h.0, ground arith)

  module _ (m : TextMap (SessionTreeEntry H)) (n : ℕ) (new : SessionTreeEntry H)
      (fresh : get m (id new) ≡ none) (known : IsKnown m (parent_id new))
      (a : HasAges (get m) n) where
    age' : Text → ℕ
    age' k = if text_eq (id new) k then n else a.0 k

    kept : (k : Text) (e : SessionTreeEntry H) → get m k ≡ some e → text_eq (id new) k ≡ false
    kept k e found = ground (arith, text_eq_iff (id new) k)

    old_parent :
        (p : Text) (q : SessionTreeEntry H)
        → get m p ≡ some q
        → (get (insert m (id new) new) p ≡ some q) × (age' p ≡ a.0 p)
    unfolding age'
    old_parent p q found = rw (get-insert m (id new) new p, kept p q found) (found, refl)

    new_IsOlder : IsOlder (get (insert m (id new) new)) age' (suc n) (id new) new
    unfolding age'
    new_IsOlder = record {
      own_id = refl;
      bounded = ground (arith, text_eq_iff (id new) (id new));
      parent_older = λ p r.
          let (q, found) = known_parent m (parent_id new) known p r in
          let (found', e) = old_parent p q found in
          let b = (a.1 p q found).bounded in
          (q, found', ground (arith, e, b, text_eq_iff (id new) (id new)));
    }

    old_IsOlder :
        (k : Text) (e : SessionTreeEntry H)
        → get m k ≡ some e
        → IsOlder (get (insert m (id new) new)) age' (suc n) k e
    unfolding age'
    old_IsOlder k e found =
        let o = a.1 k e found in
        let miss = kept k e found in
        record {
          own_id = o.own_id;
          bounded = ground (arith, miss, o.bounded);
          parent_older = λ p r.
              let (q, known', older) = o.parent_older p r in
              let (found', same) = old_parent p q known' in
              (q, found', ground (arith, miss, same, older));
        }

    -- A fresh entry with a known parent, or none, keeps the ages.
    pub insert-HasAges : HasAges (get (insert m (id new) new)) (suc n)
    insert-HasAges = (
      age',
      λ k e h. elim (Bool-cases (text_eq (id new) k)) [
        | inl hit ↦ transfer k e hit (ground (arith, get-insert m (id new) new k))
        | inr miss ↦ old_IsOlder k e (ground (arith, get-insert m (id new) new k))
      ],
    )
      where
        transfer :
            (k : Text) (e : SessionTreeEntry H)
            → text_eq (id new) k ≡ true
            → new ≡ e
            → IsOlder (get (insert m (id new) new)) age' (suc n) k e
        transfer k e hit same =
            subst₂
              (λ (k : Text) (e : SessionTreeEntry H).
                IsOlder (get (insert m (id new) new)) age' (suc n) k e)
              ((text_eq_iff (id new) k).0 hit) same new_IsOlder
