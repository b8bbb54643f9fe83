-- ===== src/Base/Trim.antt =====
-- What trimming does to a text.
use mathlib.Core.Path.{◌≡◌, refl, ap, ◌∙◌}
use mathlib.Core.Logic.{inl, inr}
use mathlib.Core.Bool.{false, ◌&&◌}
use mathlib.Core.List.{[], ◌∷◌}
use Prim.Native.Nat.{ℕ}
use native.Mathlib.Omega.{arith}
use ri.Base.Tests.{Bool-cases}
use ri.Base.Lists.{All, is_empty}
use ri.Base.Strings.{Text, is_whitespace, trim_start, trim_end, trim}

-- The text begins with no white space.
abbrev StartsClean : Text → Type 0
StartsClean [] = Unit
StartsClean (c ∷ s) = is_whitespace c ≡ false

trim_start-StartsClean : (s : Text) → StartsClean (trim_start s)
unfolding trim_start
trim_start-StartsClean [] = tt
trim_start-StartsClean (c ∷ s) = elim (Bool-cases (is_whitespace c)) [
  | inl w ↦ rw w (trim_start-StartsClean s)
  | inr n ↦ rw n n
]

trim_start_clean : (s : Text) → StartsClean s → trim_start s ≡ s
unfolding trim_start
trim_start_clean [] h = refl
trim_start_clean (c ∷ s) h = rw h

trim_end-StartsClean : (s : Text) → StartsClean s → StartsClean (trim_end s)
unfolding trim_end
trim_end-StartsClean [] h = tt
trim_end-StartsClean (c ∷ s) h = elim (Bool-cases (is_empty (trim_end s))) [
  | inl e ↦ rw (e, h) h
  | inr n ↦ rw n h
]

trim_end_twice : (s : Text) → trim_end (trim_end s) ≡ trim_end s
unfolding trim_end
trim_end_twice [] = refl
trim_end_twice (c ∷ s) = ground (arith, trim_end_twice s)

pub trim_twice : (s : Text) → trim (trim s) ≡ trim s
unfolding trim
trim_twice s =
    ap trim_end (
      trim_start_clean (trim_end (trim_start s))
        (trim_end-StartsClean (trim_start s) (trim_start-StartsClean s)))
    ∙ trim_end_twice (trim_start s)

module _ (P : ℕ → Type 0) where
  All-trim_start : (s : Text) → All P s → All P (trim_start s)
  unfolding trim_start
  All-trim_start [] h = tt
  All-trim_start (c ∷ s) h = elim (Bool-cases (is_whitespace c)) [
    | inl w ↦ rw w (All-trim_start s h.1)
    | inr n ↦ rw n h
  ]

  All-trim_end : (s : Text) → All P s → All P (trim_end s)
  unfolding trim_end
  All-trim_end [] h = tt
  All-trim_end (c ∷ s) h = elim (Bool-cases (is_empty (trim_end s) && is_whitespace c)) [
    | inl w ↦ rw w tt
    | inr n ↦ rw n (h.0, All-trim_end s h.1)
  ]

  pub All-trim : (s : Text) → All P s → All P (trim s)
  unfolding trim
  All-trim s h = All-trim_end (trim_start s) (All-trim_start s h)
