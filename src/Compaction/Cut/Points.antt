-- ===== src/Compaction/Cut/Points.antt =====
-- The loops of `find_cut_point` of compaction.rs, each within its range.
use ri.Base.{
  ℕ, zero, suc, ◌+◌, ◌≤◌, ◌<◌, ◌≡◌, refl, true, false, Option, none, some, List, [], ◌∷◌, length,
  get_elem?, leb, ltb, ◌==◌, All, arith, Bool-cases, inl, inr, ◌⊎◌,
}
use ri.Message.{Host}
use ri.Session.Entry.{SessionTreeEntry}
use ri.Compaction.Cut.{
  is_cut_point, is_turn_start, is_message_or_compaction, cut_points_from, turn_start_from, next_cut,
  step_back,
}

pub get_elem?-lt {ℓ} :
    {A : Type ℓ} (xs : List A) (i : ℕ) → i < length xs → (a : A) × (get_elem? xs i ≡ some a)
get_elem?-lt [] i h = absurd (omega arith)
get_elem?-lt (x ∷ xs) zero h = (x, refl)
get_elem?-lt (x ∷ xs) (suc i) h = get_elem?-lt xs i (omega arith)

pub get_elem?-some {ℓ} :
    {A : Type ℓ} (xs : List A) (i : ℕ) (a : A) → get_elem? xs i ≡ some a → i < length xs
get_elem?-some [] i a h = absurd (ground (arith, h))
get_elem?-some (x ∷ xs) zero a h = omega arith
get_elem?-some (x ∷ xs) (suc i) a h = omega (arith, get_elem?-some xs i a h)

All-map {ℓ κ μ} :
    {A : Type ℓ} {P : A → Type κ} {Q : A → Type μ} (f : (a : A) → P a → Q a) (xs : List A)
    → All P xs
    → All Q xs
All-map f [] a = tt
All-map f (x ∷ xs) (p, a) = (f x p, All-map f xs a)

pub next_cut-All :
    (P : ℕ → Type 0) (points : List ℕ) (index old : ℕ)
    → All P points
    → P old
    → P (next_cut points index old)
unfolding next_cut
next_cut-All P [] index old a p = p
next_cut-All P (cut ∷ cuts) index old (q, a) p = elim (Bool-cases (leb index cut)) [
  | inl h ↦ rw (h) q
  | inr h ↦ rw (h) (next_cut-All P cuts index old a p)
]

module _ {H : Host} where
  -- An entry that the kept part may begin with: never the result of a tool, and no compaction.
  unfoldable pub StartsAt : List (SessionTreeEntry H) → ℕ → Type 0
  StartsAt entries i =
      (e : SessionTreeEntry H) × (get_elem? entries i ≡ some e)
      × ((is_cut_point e ≡ true) ⊎ (is_message_or_compaction e ≡ false))

  -- The index of a cut point in a range.
  unfoldable pub IsPoint : List (SessionTreeEntry H) → ℕ → ℕ → ℕ → Type 0
  IsPoint entries low high i =
      (low ≤ i)
      × (i < high)
      × ((e : SessionTreeEntry H) × (get_elem? entries i ≡ some e) × (is_cut_point e ≡ true))

  pub cut_points_from-IsPoint :
      (entries : List (SessionTreeEntry H)) (index count : ℕ)
      → index + count ≤ length entries
      → (points : List ℕ) × (cut_points_from entries index count ≡ some points)
        × All (IsPoint entries index (index + count)) points
  unfolding cut_points_from IsPoint
  cut_points_from-IsPoint entries index zero h = ([], refl, tt)
  cut_points_from-IsPoint entries index (suc count) h =
      let (e, p) = get_elem?-lt entries index (omega arith) in
      let (points, q, a) = cut_points_from-IsPoint entries (index + 1) count (omega arith) in
      let wider =
        All-map (λ i (r : IsPoint entries (index + 1) (index + 1 + count) i). widen i r) points a in
      elim (Bool-cases (is_cut_point e)) [
        | inl c ↦
            rw (p, q, c) (index ∷ points, refl, ((omega arith, omega arith, (e, p, c)), wider))
        | inr c ↦ rw (p, q, c) (points, refl, wider)
      ]
    where
      widen :
          (i : ℕ)
          → IsPoint entries (index + 1) (index + 1 + count) i
          → IsPoint entries index (index + suc count) i
      widen i (l, r, e) = (omega arith, omega arith, e)

  pub step_back-StartsAt :
      (entries : List (SessionTreeEntry H)) (start cut : ℕ)
      → start ≤ cut
      → StartsAt entries cut
      → (i : ℕ) × (step_back entries start cut ≡ some i)
        × (start ≤ i)
        × (i ≤ cut)
        × StartsAt entries i
  unfolding step_back StartsAt
  step_back-StartsAt entries start zero h s = (0, refl, h, omega arith, s)
  step_back-StartsAt entries start (suc cut) h s = elim (Bool-cases (ltb start (suc cut))) [
    | inr same ↦ rw (same) (suc cut, refl, h, omega arith, s)
    | inl above ↦
        let (f, g, k) = s in
        let (e, p) =
          get_elem?-lt entries cut (omega (arith, get_elem?-some entries (suc cut) f g)) in
        elim (Bool-cases (is_message_or_compaction e)) [
          | inl m ↦ rw (above, p, m) (suc cut, refl, h, omega arith, s)
          | inr m ↦
              let (i, q, low, high, t) =
                step_back-StartsAt entries start cut (ground arith) (e, p, inr m) in
              rw (above, p, m) (i, q, low, omega arith, t)
        ]
  ]

  -- The start of a turn that is found is one, and in the range.
  unfoldable pub TurnAt : List (SessionTreeEntry H) → ℕ → ℕ → Option ℕ → Type 0
  TurnAt entries start cut none = Unit
  TurnAt entries start cut (some t) =
      (start ≤ t)
      × (t ≤ cut)
      × ((e : SessionTreeEntry H) × (get_elem? entries t ≡ some e) × (is_turn_start e ≡ true))

  TurnAt-suc :
      (entries : List (SessionTreeEntry H)) (start cut : ℕ) (turn : Option ℕ)
      → TurnAt entries start cut turn
      → TurnAt entries start (suc cut) turn
  unfolding TurnAt
  TurnAt-suc entries start cut none w = tt
  TurnAt-suc entries start cut (some t) (l, r, e) = (l, omega arith, e)

  pub turn_start_from-TurnAt :
      (entries : List (SessionTreeEntry H)) (start cut : ℕ)
      → start ≤ cut
      → cut < length entries
      → (turn : Option ℕ) × (turn_start_from entries start cut ≡ some turn)
        × TurnAt entries start cut turn
  unfolding turn_start_from TurnAt
  turn_start_from-TurnAt entries start zero h l =
      let (e, p) = get_elem?-lt entries 0 l in
      let only : (0 == start) ≡ true = ground arith in
      elim (Bool-cases (is_turn_start e)) [
        | inl t ↦ rw (p, t) (some 0, refl, (h, omega arith, (e, p, t)))
        | inr t ↦ rw (p, t, only) (none, refl, tt)
      ]
  turn_start_from-TurnAt entries start (suc cut) h l =
      let (e, p) = get_elem?-lt entries (suc cut) l in
      elim (Bool-cases (is_turn_start e)) [
        | inl t ↦ rw (p, t) (some (suc cut), refl, (h, omega arith, (e, p, t)))
        | inr t ↦ elim (Bool-cases (suc cut == start)) [
          | inl last ↦ rw (p, t, last) (none, refl, tt)
          | inr more ↦
              let (turn, q, w) =
                turn_start_from-TurnAt entries start cut (ground arith) (omega arith) in
              rw (p, t, more) (turn, q, TurnAt-suc entries start cut turn w)
        ]
      ]
