-- ===== src/Compaction/Prepare/Slices.antt =====
-- Slices and last occurrences in lists, as `prepare_compaction` of compaction.rs takes them.
use ri.Base.{
  ℕ, zero, suc, ◌+◌, ◌-◌, ◌≤◌, ◌<◌, ◌≡◌, refl, sym, ap, ◌∙◌, true, Option, none, some, List, [],
  ◌∷◌, ◌++◌, length, take, drop, leb, last, arith, inl, inr, ◌⊎◌,
}
use ri.Compaction.Usage.{rfind_map, later_or}
use ri.Compaction.Prepare.{slice}

-- `slice` in its range.
pub slice_ok {ℓ} :
    {A : Type ℓ} (from to : ℕ) (es : List A)
    → from ≤ to
    → to ≤ length es
    → slice from to es ≡ some (take (to - from) (drop from es))
unfolding slice
slice_ok from to es h k =
    let low : leb from to ≡ true = ground arith in
    let high : leb to (length es) ≡ true = ground arith in rw (low, high) refl

abbrev nothing {ℓ} : {A : Type ℓ} → List A
nothing = []

take-nil {ℓ} : {A : Type ℓ} (n : ℕ) → take n (nothing {A = A}) ≡ []
take-nil zero = refl
take-nil (suc n) = refl

drop-nil {ℓ} : {A : Type ℓ} (n : ℕ) → drop n (nothing {A = A}) ≡ []
drop-nil zero = refl
drop-nil (suc n) = refl

take-plus {ℓ} :
    {A : Type ℓ} (m n : ℕ) (xs : List A) → take (m + n) xs ≡ take m xs ++ take n (drop m xs)
take-plus zero n xs = let none_more : zero + n ≡ n = omega arith in ap (λ k. take k xs) none_more
take-plus (suc m) n [] =
    let more : suc m + n ≡ suc (m + n) = omega arith in ap (λ k. take k []) more ∙ sym (take-nil n)
take-plus (suc m) n (x ∷ xs) =
    let more : suc m + n ≡ suc (m + n) = omega arith in
    ap (λ k. take k (x ∷ xs)) more ∙ ap (◌∷◌ x) (take-plus m n xs)

drop-drop {ℓ} : {A : Type ℓ} (m n : ℕ) (xs : List A) → drop m (drop n xs) ≡ drop (n + m) xs
drop-drop m zero xs = let same : zero + m ≡ m = omega arith in ap (λ k. drop k xs) (sym same)
drop-drop m (suc n) [] =
    let more : suc n + m ≡ suc (n + m) = omega arith in drop-nil m ∙ sym (ap (λ k. drop k []) more)
drop-drop m (suc n) (x ∷ xs) =
    let more : suc n + m ≡ suc (n + m) = omega arith in
    drop-drop m n xs ∙ sym (ap (λ k. drop k (x ∷ xs)) more)

-- Two slices that meet.
pub slices_meet {ℓ} :
    {A : Type ℓ} (from mid to : ℕ) (es : List A)
    → from ≤ mid
    → mid ≤ to
    → take (mid - from) (drop from es) ++ take (to - mid) (drop mid es)
      ≡ take (to - from) (drop from es)
slices_meet from mid to es h k =
    let whole : (mid - from) + (to - mid) ≡ to - from = omega arith in
    let middle : from + (mid - from) ≡ mid = omega arith in
    ap (λ ys. take (mid - from) (drop from es) ++ take (to - mid) ys)
      (ap (λ n. drop n es) (sym middle) ∙ sym (drop-drop (mid - from) from es))
    ∙ sym (take-plus (mid - from) (to - mid) (drop from es))
    ∙ ap (λ n. take n (drop from es)) whole

abbrev index_or {κ} : {B : Type κ} → ℕ → Option (ℕ × B) → ℕ
index_or d none = d
index_or d (some (j, c)) = j

rfind_step {κ} :
    {B : Type κ} (o : Option (ℕ × B)) (c : Option B) (at i : ℕ) (b : B)
    → later_or o at c ≡ some (i, b)
    → (o ≡ some (i, b)) ⊎ (i ≡ at)
rfind_step none none at i b h = absurd (cc)
rfind_step none (some r) at i b h = inr (sym (ap (index_or at) h))
rfind_step (some found) c at i b h = inl h

pub rfind_map-before_last {ℓ κ} :
    {A : Type ℓ} {B : Type κ} (f : A → Option B) (at : ℕ) (es : List A) (i : ℕ) (b : B) (z : A)
    → last es ≡ some z
    → f z ≡ none
    → rfind_map f at es ≡ some (i, b)
    → i + 1 < at + length es
unfolding rfind_map
rfind_map-before_last f at [] i b z l n h = absurd (ground (arith, l))
rfind_map-before_last f at (x ∷ []) i b z l n h = absurd (ground (arith, l, n, h))
rfind_map-before_last f at (x ∷ (y ∷ es)) i b z l n h =
    elim (rfind_step (rfind_map f (at + 1) (y ∷ es)) (f x) at i b h) [
      | inl q ↦ omega (arith, rfind_map-before_last f (at + 1) (y ∷ es) i b z l n q)
      | inr q ↦ omega arith
    ]
