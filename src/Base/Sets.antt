-- ===== src/Base/Sets.antt =====
-- `BTreeSet<String>` by its members: a list without order, in which a text counts once.
use ri.Base.Tests.{if◌then◌else◌, Bool-cases}
use ri.Base.Strings.{Text, text_eq, text_eq_iff, text_eq→eq}
use mathlib.Core.Path.{◌≡◌, subst}
use mathlib.Core.Logic.{inl, inr}
use mathlib.Core.Bool.{Bool, true, false, ◌||◌, ◌&&◌, not}
use mathlib.Core.List.{List, [], ◌∷◌}
use native.Mathlib.Omega.{arith}

unfoldable pub contains : List Text → Text → Bool
contains [] k = false
contains (j ∷ s) k = text_eq j k || contains s k

unfoldable pub set_insert : List Text → Text → List Text
set_insert s k = if contains s k then s else k ∷ s

unfoldable pub set_remove : List Text → Text → List Text
set_remove [] k = []
set_remove (j ∷ s) k = let rest = set_remove s k in if text_eq j k then rest else j ∷ rest

pub contains-set_insert :
    (s : List Text) (k j : Text) → contains (set_insert s k) j ≡ (text_eq k j || contains s j)
unfolding set_insert contains
contains-set_insert s k j = elim (Bool-cases (contains s k)) [
  | inl old ↦ elim (Bool-cases (text_eq k j)) [
    | inl same ↦
        rw (old, same) (subst (λ (t : Text). contains s t ≡ true) (text_eq→eq k j same) old)
    | inr other ↦ rw (old, other)
  ]
  | inr new ↦ rw new
]

pub contains-set_remove :
    (s : List Text) (k j : Text) → contains (set_remove s k) j ≡ (not (text_eq k j) && contains s j)
unfolding set_remove contains
contains-set_remove [] k j = ground arith
contains-set_remove (i ∷ s) k j =
    ground (arith, text_eq_iff k j, text_eq_iff i k, text_eq_iff i j, contains-set_remove s k j)
