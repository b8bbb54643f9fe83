-- ===== src/Base/Maps.antt =====
-- `BTreeMap<String, V>` as an association list: reading, insertion and removal by key.
use mathlib.Core.Path.{◌≡◌, refl}
use mathlib.Core.Bool.{Bool, true, false, ◌||◌}
use mathlib.Core.Option.{Option, none, some}
use mathlib.Core.List.{List, [], ◌∷◌}
use native.Mathlib.Omega.{arith}
use ri.Base.Tests.{if◌then◌else◌, is_some}
use ri.Base.Strings.{Text, text_eq, text_eq_iff, text_eq_refl}

abbrev pub TextMap : Type 0 → Type 0
TextMap V = List (Text × V)

module _ {V : Type 0} where
  unfoldable pub get : TextMap V → Text → Option V
  get [] k = none
  get ((j, v) ∷ m) k = if text_eq j k then some v else get m k

  unfoldable pub insert : TextMap V → Text → V → TextMap V
  insert [] k v = (k, v) ∷ []
  insert ((j, w) ∷ m) k v = if text_eq j k then (k, v) ∷ m else (j, w) ∷ insert m k v

  -- Every pair of the key is taken out.
  unfoldable pub remove : TextMap V → Text → TextMap V
  remove [] k = []
  remove ((j, w) ∷ m) k = let rest = remove m k in if text_eq j k then rest else (j, w) ∷ rest

  unfoldable pub contains_key : TextMap V → Text → Bool
  unfolding get
  contains_key m k = is_some (get m k)

  pub get-insert :
      (m : TextMap V) (k : Text) (v : V) (j : Text)
      → get (insert m k v) j ≡ (if text_eq k j then some v else get m j)
  unfolding get insert
  get-insert [] k v j = refl
  get-insert ((i, w) ∷ m) k v j =
      ground (arith, text_eq_iff k j, text_eq_iff i k, text_eq_iff i j, get-insert m k v j)

  pub get-insert_self : (m : TextMap V) (k : Text) (v : V) → get (insert m k v) k ≡ some v
  get-insert_self m k v = simp (get-insert, text_eq_refl)

  pub get-remove :
      (m : TextMap V) (k j : Text) → get (remove m k) j ≡ (if text_eq k j then none else get m j)
  unfolding get remove
  get-remove [] k j = ground arith
  get-remove ((i, w) ∷ m) k j =
      ground (arith, text_eq_iff k j, text_eq_iff i k, text_eq_iff i j, get-remove m k j)

  pub contains_key-get :
      (m : TextMap V) (k : Text) {v : V} → get m k ≡ some v → contains_key m k ≡ true
  unfolding contains_key
  contains_key-get m k e = rw (e, contains_key)

  pub get-none : (m : TextMap V) (k : Text) → contains_key m k ≡ false → get m k ≡ none
  unfolding contains_key
  get-none m k e = ground arith

  pub get-some : (m : TextMap V) (k : Text) → contains_key m k ≡ true → (v : V) × (get m k ≡ some v)
  unfolding contains_key
  get-some m k e = ground arith

  pub contains_key-insert :
      (m : TextMap V) (k : Text) (v : V) (j : Text)
      → contains_key (insert m k v) j ≡ (text_eq k j || contains_key m j)
  unfolding contains_key
  contains_key-insert m k v j = ground (arith, get-insert m k v j)
