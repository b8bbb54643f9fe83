-- ===== src/Truncate/Bytes.antt =====
-- What truncate.rs uses of `str`: the length in UTF-8, `char_indices`, and slices by bytes, which
-- panic (`none`) off a boundary between characters.
use mathlib.Core.Option
use ri.Base.{
  ℕ, ◌+◌, ◌-◌, ◌≤◌, ◌≡◌, refl, sym, ap, ◌∙◌, Option, none, some, List, [], ◌∷◌, ◌++◌, reverse, Text,
  arith, ltb, leb, ◌==◌, if◌then◌else◌,
}
use mathlib.Core.List.{reverse-cons}

-- `char::len_utf8`.
unfoldable pub len_utf8 : ℕ → ℕ
len_utf8 c = if ltb c 0x80 then 1 else if ltb c 0x800 then 2 else if ltb c 0x10000 then 3 else 4

-- `str::len`.
unfoldable pub utf8_byte_len : Text → ℕ
utf8_byte_len [] = 0
utf8_byte_len (c ∷ s) = len_utf8 c + utf8_byte_len s

-- `str::char_indices`, of a text that begins at byte `at`.
unfoldable pub char_indices : ℕ → Text → List (ℕ × ℕ)
char_indices at [] = []
char_indices at (c ∷ s) = (at, c) ∷ char_indices (at + len_utf8 c) s

-- `text[..end]`.
unfoldable pub slice_to : Text → ℕ → Option Text
slice_to [] n = if n == 0 then some [] else none
slice_to (c ∷ s) n =
    let rest = slice_to s (n - len_utf8 c) in
    if n == 0 then some [] else if leb (len_utf8 c) n then Option.map (◌∷◌ c) rest else none

-- `text[start..]`.
unfoldable pub slice_from : Text → ℕ → Option Text
slice_from [] n = if n == 0 then some [] else none
slice_from (c ∷ s) n =
    let rest = slice_from s (n - len_utf8 c) in
    if n == 0 then some (c ∷ s) else if leb (len_utf8 c) n then rest else none

pub len_utf8_bounds : (c : ℕ) → (1 ≤ len_utf8 c) × (len_utf8 c ≤ 4)
unfolding len_utf8
len_utf8_bounds c = ground arith

pub utf8_byte_len-append : (s t : Text) → utf8_byte_len (s ++ t) ≡ utf8_byte_len s + utf8_byte_len t
unfolding utf8_byte_len
utf8_byte_len-append [] t = omega arith
utf8_byte_len-append (c ∷ s) t = omega (arith, utf8_byte_len-append s t)

pub slice_to-append : (s t : Text) → slice_to (s ++ t) (utf8_byte_len s) ≡ some s
unfolding slice_to utf8_byte_len
slice_to-append [] [] = refl
slice_to-append [] (c ∷ t) = refl
slice_to-append (c ∷ s) t =
    let (low, high) = len_utf8_bounds c in
    let back : (len_utf8 c + utf8_byte_len s) - len_utf8 c ≡ utf8_byte_len s = omega arith in
    rw (back, slice_to-append s t) (ground arith)

pub slice_from-append : (s t : Text) → slice_from (s ++ t) (utf8_byte_len s) ≡ some t
unfolding slice_from utf8_byte_len
slice_from-append [] [] = refl
slice_from-append [] (c ∷ t) = refl
slice_from-append (c ∷ s) t =
    let (low, high) = len_utf8_bounds c in
    let back : (len_utf8 c + utf8_byte_len s) - len_utf8 c ≡ utf8_byte_len s = omega arith in
    rw (back, slice_from-append s t) (ground arith)

-- The characters of a text from its end, which is at byte `at`.
unfoldable pub char_indices_back : ℕ → Text → List (ℕ × ℕ)
char_indices_back at [] = []
char_indices_back at (c ∷ s) = (at - len_utf8 c, c) ∷ char_indices_back (at - len_utf8 c) s

char_indices_back-append :
    (at : ℕ) (s t : Text)
    → char_indices_back at (s ++ t)
      ≡ char_indices_back at s ++ char_indices_back (at - utf8_byte_len s) t
unfolding char_indices_back utf8_byte_len
char_indices_back-append at [] t = ap (λ n. char_indices_back n t) (omega arith)
char_indices_back-append at (c ∷ s) t = ap (◌∷◌ (at - len_utf8 c, c)) (
    char_indices_back-append (at - len_utf8 c) s t
    ∙ ap (λ n. char_indices_back (at - len_utf8 c) s ++ char_indices_back n t) (omega arith))

pub utf8_byte_len-reverse : (s : Text) → utf8_byte_len (reverse s) ≡ utf8_byte_len s
unfolding utf8_byte_len
utf8_byte_len-reverse [] = refl
utf8_byte_len-reverse (c ∷ s) = omega (
  arith,
  ap utf8_byte_len (reverse-cons c s),
  utf8_byte_len-append (reverse s) (c ∷ []),
  utf8_byte_len-reverse s,
)

pub reverse-char_indices :
    (at : ℕ) (s : Text)
    → reverse (char_indices at s) ≡ char_indices_back (at + utf8_byte_len s) (reverse s)
unfolding char_indices utf8_byte_len char_indices_back
reverse-char_indices at [] = refl
reverse-char_indices at (c ∷ s) =
    let end = at + (len_utf8 c + utf8_byte_len s) in
    let here : end - utf8_byte_len (reverse s) ≡ at + len_utf8 c =
      omega (arith, utf8_byte_len-reverse s) in
    let back : (at + len_utf8 c) - len_utf8 c ≡ at = omega arith in
    let there : (at + len_utf8 c) + utf8_byte_len s ≡ end = omega arith in
    reverse-cons (at, c) (char_indices (at + len_utf8 c) s)
    ∙ ap (λ xs. xs ++ (at, c) ∷ []) (reverse-char_indices (at + len_utf8 c) s)
    ∙ ap (λ n. char_indices_back n (reverse s) ++ (at, c) ∷ []) there
    ∙ sym (
        ap (char_indices_back end) (reverse-cons c s)
        ∙ char_indices_back-append end (reverse s) (c ∷ [])
        ∙ rw (here, back) refl)
