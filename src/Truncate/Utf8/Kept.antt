-- ===== src/Truncate/Utf8/Kept.antt =====
-- What the cuts by bytes of truncate.rs keep of a text.
use mathlib.Core.Option
use mathlib.Core.List.{reverse-reverse, reverse-append, append-nil}
use ri.Base.{
  ℕ, ◌+◌, ◌-◌, ◌≤◌, ◌≡◌, refl, sym, ap, ◌∙◌, subst, Bool-cases, true, false, [], ◌∷◌, ◌++◌, reverse,
  Text, arith, ltb, leb, ◌==◌, inl, inr, some,
}
use ri.Truncate.Bytes.{
  utf8_byte_len, char_indices, char_indices_back, slice_to, slice_from, slice_to-append,
  slice_from-append, reverse-char_indices, utf8_byte_len-append, utf8_byte_len-reverse,
  len_utf8_bounds,
}
use ri.Truncate.Fit.{fit, IsFull, fit-split, fit-le, fit-IsFull, fit_all}
use ri.Truncate.Utf8.{
  Truncation, head_end, tail_start, from_end, selected, truncate_utf8, truncate_head_utf8,
  truncate_tail_utf8, truncate_string_to_bytes_from_end, head_end-fit, tail_start-fit,
  from_end-tail_start,
}

-- The longest end of a text of at most `m` bytes.
pub fit_back : ℕ → Text → Text
fit_back m s = reverse (fit m (reverse s)).0

fit_back-split : (m : ℕ) (s : Text) → reverse (fit m (reverse s)).1 ++ fit_back m s ≡ s
unfolding fit_back
fit_back-split m s =
    sym (reverse-append (fit m (reverse s)).0 (fit m (reverse s)).1)
    ∙ ap reverse (fit-split m (reverse s))
    ∙ reverse-reverse s

selected-head : (m : ℕ) (s : Text) → selected s m false ≡ some (fit m s).0
unfolding selected
selected-head m s =
    let stop : head_end m (char_indices 0 s) 0 ≡ utf8_byte_len (fit m s).0 =
      head_end-fit m 0 s (omega arith) ∙ rw (the_same m) (omega arith) in
    ap (slice_to s) stop
    ∙ ap (λ t. slice_to t (utf8_byte_len (fit m s).0)) (sym (fit-split m s))
    ∙ slice_to-append (fit m s).0 (fit m s).1
  where
    the_same : (n : ℕ) → n - 0 ≡ n
    the_same n = omega arith

tail_start_at :
    (m : ℕ) (s : Text)
    → tail_start (utf8_byte_len s) m (reverse (char_indices 0 s)) (utf8_byte_len s)
      ≡ utf8_byte_len (reverse (fit m (reverse s)).1)
unfolding fit_back
tail_start_at m s =
    let n = utf8_byte_len s in
    let whole : 0 + n ≡ n = omega arith in
    let same : m - (n - n) ≡ m = omega arith in
    ap (λ xs. tail_start n m xs n)
      (reverse-char_indices 0 s ∙ ap (λ k. char_indices_back k (reverse s)) whole)
    ∙ tail_start-fit n m n (reverse s) (omega arith) (omega arith)
        (omega (arith, utf8_byte_len-reverse s))
    ∙ rw (same) (
        omega (
          arith,
          ap utf8_byte_len (fit_back-split m s),
          utf8_byte_len-append (reverse (fit m (reverse s)).1) (fit_back m s),
          utf8_byte_len-reverse (fit m (reverse s)).0,
        ))

slice_from-fit_back :
    (m : ℕ) (s : Text)
    → slice_from s (utf8_byte_len (reverse (fit m (reverse s)).1)) ≡ some (fit_back m s)
slice_from-fit_back m s =
    ap (λ t. slice_from t (utf8_byte_len (reverse (fit m (reverse s)).1)))
      (sym (fit_back-split m s))
    ∙ slice_from-append (reverse (fit m (reverse s)).1) (fit_back m s)

selected-tail : (m : ℕ) (s : Text) → selected s m true ≡ some (fit_back m s)
unfolding selected
selected-tail m s = ap (slice_from s) (tail_start_at m s) ∙ slice_from-fit_back m s

pub fit_back-le : (m : ℕ) (s : Text) → utf8_byte_len (fit_back m s) ≤ m
unfolding fit_back
fit_back-le m s = omega (arith, utf8_byte_len-reverse (fit m (reverse s)).0, fit-le m (reverse s))

fit_back-IsFull :
    (m : ℕ) (s : Text) → IsFull m (fit_back m s) (reverse (reverse (fit m (reverse s)).1))
unfolding fit_back IsFull
fit_back-IsFull m s =
    let (kept, cut) = fit m (reverse s) in
    subst (IsFull m (reverse kept)) (sym (reverse-reverse cut))
      (turned kept cut (fit-IsFull m (reverse s)))
  where
    turned : (kept cut : Text) → IsFull m kept cut → IsFull m (reverse kept) cut
    turned kept [] f = tt
    turned kept (c ∷ cut) f = omega (arith, utf8_byte_len-reverse kept)

from_end_at :
    (m : ℕ) (s : Text)
    → from_end m (reverse (char_indices 0 s)) (utf8_byte_len s) 0
      ≡ tail_start (utf8_byte_len s) m (reverse (char_indices 0 s)) (utf8_byte_len s)
from_end_at m s =
    let n = utf8_byte_len s in
    let whole : 0 + n ≡ n = omega arith in
    let zero_left : n - n ≡ 0 = omega arith in
    let back = reverse-char_indices 0 s ∙ ap (λ k. char_indices_back k (reverse s)) whole in
    ap (λ xs. from_end m xs n 0) back
    ∙ ap (from_end m (char_indices_back n (reverse s)) n) (sym zero_left)
    ∙ from_end-tail_start n m n (reverse s) (omega arith) (omega (arith, utf8_byte_len-reverse s))
    ∙ sym (ap (λ xs. tail_start n m xs n) back)

fit_back_all : (m : ℕ) (s : Text) → utf8_byte_len s ≤ m → fit_back m s ≡ s
unfolding fit_back
fit_back_all m s h =
    ap (λ (p : Text × Text). reverse p.0)
      (fit_all m (reverse s) (omega (arith, utf8_byte_len-reverse s)))
    ∙ reverse-reverse s

no_bytes : (s : Text) → utf8_byte_len s ≤ 0 → s ≡ []
unfolding utf8_byte_len
no_bytes [] h = refl
no_bytes (c ∷ s) h = absurd (omega (arith, (len_utf8_bounds c).0))

pub from_end_lem : (s : Text) (m : ℕ) → truncate_string_to_bytes_from_end s m ≡ some (fit_back m s)
unfolding truncate_string_to_bytes_from_end
from_end_lem s m = elim (Bool-cases (m == 0)) [
  | inl h ↦ rw (h) (ap some (sym (no_bytes (fit_back m s) (ground (arith, fit_back-le m s)))))
  | inr h ↦
      rw (h) (ap (slice_from s) (from_end_at m s ∙ tail_start_at m s) ∙ slice_from-fit_back m s)
]

-- `truncate_head_utf8` never panics on a slice; it keeps the longest beginning of the text that
-- has at most `max_bytes` bytes and no part of a character, and says whether the text had more.
truncate_head_utf8_lem :
    (text : Text) (max_bytes : ℕ)
    → (r : Truncation) × (cut : Text) × (truncate_head_utf8 text max_bytes ≡ some r)
      × (r.text ++ cut ≡ text)
      × (utf8_byte_len r.text ≤ max_bytes)
      × IsFull max_bytes r.text cut
      × (r.truncated ≡ ltb max_bytes (utf8_byte_len text))
      × (r.original_bytes ≡ utf8_byte_len text)
unfolding truncate_head_utf8 truncate_utf8 IsFull
truncate_head_utf8_lem s m = elim (Bool-cases (leb (utf8_byte_len s) m)) [
  | inl h ↦ rw (h) (_, [], refl, append-nil s, ground arith, tt, ground arith, refl)
  | inr h ↦
      rw (h, selected-head m s)
        (_, (fit m s).1, refl, fit-split m s, fit-le m s, fit-IsFull m s, ground arith, refl)
]

-- `truncate_tail_utf8` never panics on a slice; it keeps the longest end of the text that has at
-- most `max_bytes` bytes and no part of a character, and says whether the text had more.
pub truncate_tail_utf8_lem :
    (text : Text) (max_bytes : ℕ)
    → (r : Truncation) × (cut : Text) × (truncate_tail_utf8 text max_bytes ≡ some r)
      × (cut ++ r.text ≡ text)
      × (utf8_byte_len r.text ≤ max_bytes)
      × IsFull max_bytes r.text (reverse cut)
      × (r.truncated ≡ ltb max_bytes (utf8_byte_len text))
      × (r.original_bytes ≡ utf8_byte_len text)
unfolding truncate_tail_utf8 truncate_utf8 IsFull
truncate_tail_utf8_lem s m = elim (Bool-cases (leb (utf8_byte_len s) m)) [
  | inl h ↦ rw (h) (_, [], refl, refl, ground arith, tt, ground arith, refl)
  | inr h ↦
      rw (h, selected-tail m s)
        (
          _,
          reverse (fit m (reverse s)).1,
          refl,
          fit_back-split m s,
          fit_back-le m s,
          fit_back-IsFull m s,
          ground arith,
          refl,
        )
]

-- The two routines that keep the end of a text agree: `truncate_string_to_bytes_from_end`, which
-- counts the bytes that it has kept, gives the text that `truncate_tail_utf8` gives.
from_end-truncate_tail_utf8 :
    (text : Text) (max_bytes : ℕ)
    → truncate_string_to_bytes_from_end text max_bytes
      ≡ Option.map (λ (r : Truncation). r.text) (truncate_tail_utf8 text max_bytes)
unfolding truncate_tail_utf8 truncate_utf8
from_end-truncate_tail_utf8 s m = from_end_lem s m ∙ elim (Bool-cases (leb (utf8_byte_len s) m)) [
  | inl h ↦ rw (h) (ap some (fit_back_all m s (ground arith)))
  | inr h ↦ rw (h, selected-tail m s) refl
]
