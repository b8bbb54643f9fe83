-- ===== src/Truncate/Fit.antt =====
-- The longest part of a text that has at most a number of bytes, which the loops of truncate.rs
-- look for.
use ri.Base.{
  ℕ, ◌+◌, ◌-◌, ◌≤◌, ◌<◌, ◌≡◌, refl, Bool-cases, [], ◌∷◌, ◌++◌, Text, arith, ltb, if◌then◌else◌, inl,
  inr,
}
use ri.Truncate.Bytes.{len_utf8, utf8_byte_len}

-- The characters that are kept, and the others.
unfoldable pub fit : ℕ → Text → Text × Text
fit m [] = ([], [])
fit m (c ∷ s) =
    let (kept, cut) = fit (m - len_utf8 c) s in
    if ltb m (len_utf8 c) then ([], c ∷ s) else (c ∷ kept, cut)

-- One more character would be more than `m` bytes.
unfoldable pub IsFull : ℕ → Text → Text → Type 0
IsFull m kept [] = Unit
IsFull m kept (c ∷ cut) = m < utf8_byte_len kept + len_utf8 c

pub fit-split : (m : ℕ) (s : Text) → (fit m s).0 ++ (fit m s).1 ≡ s
unfolding fit
fit-split m [] = refl
fit-split m (c ∷ s) = ground (arith, fit-split (m - len_utf8 c) s)

pub fit-le : (m : ℕ) (s : Text) → utf8_byte_len (fit m s).0 ≤ m
unfolding fit utf8_byte_len
fit-le m [] = omega arith
fit-le m (c ∷ s) = ground (arith, fit-le (m - len_utf8 c) s)

pub fit-IsFull : (m : ℕ) (s : Text) → IsFull m (fit m s).0 (fit m s).1
unfolding fit IsFull utf8_byte_len
fit-IsFull m [] = tt
fit-IsFull m (c ∷ s) = elim (Bool-cases (ltb m (len_utf8 c))) [
  | inl h ↦ rw (h) (ground arith)
  | inr h ↦ rw (h) (
      further (fit (m - len_utf8 c) s).0 (fit (m - len_utf8 c) s).1 (fit-IsFull (m - len_utf8 c) s))
]
  where
    further : (kept cut : Text) → IsFull (m - len_utf8 c) kept cut → IsFull m (c ∷ kept) cut
    further kept [] f = tt
    further kept (d ∷ cut) f = omega arith

-- A text that has at most `m` bytes is kept whole.
pub fit_all : (m : ℕ) (s : Text) → utf8_byte_len s ≤ m → fit m s ≡ (s, [])
unfolding fit utf8_byte_len
fit_all m [] h = refl
fit_all m (c ∷ s) h = ground (arith, fit_all (m - len_utf8 c) s)
