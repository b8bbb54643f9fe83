-- ===== src/Truncate/Utf8.antt =====
-- `truncate_utf8` and `truncate_string_to_bytes_from_end` of truncate.rs: the loops over the
-- characters, the slices they are for, and what stays of a text.
pub mod Kept
use mathlib.Core.Option
use mathlib.Core.List.{reverse-reverse, reverse-append}
use ri.Base.{
  ℕ, ◌+◌, ◌-◌, ◌≤◌, ◌<◌, ◌≡◌, refl, sym, ap, ◌∙◌, Bool, Bool-cases, true, false, List, [], ◌∷◌,
  ◌++◌, reverse, Text, arith, ltb, leb, ◌==◌, if◌then◌else◌, inl, inr, Option, none, some,
}
use ri.Truncate.Bytes.{
  len_utf8, utf8_byte_len, char_indices, char_indices_back, slice_to, slice_from, slice_to-append,
  slice_from-append, reverse-char_indices, utf8_byte_len-append, utf8_byte_len-reverse,
  len_utf8_bounds,
}
use ri.Truncate.Fit.{fit, IsFull, fit-split, fit-le, fit-IsFull, fit_all}

pub record Truncation : Type 0 where
  pub text : Text
  pub original_bytes : ℕ
  pub truncated : Bool

-- The loop of the head: the end of the characters that are kept.
head_end : ℕ → List (ℕ × ℕ) → ℕ → ℕ
head_end max_bytes [] end = end
head_end max_bytes ((index, ch) ∷ more) end =
    let next = index + len_utf8 ch in
    let later = head_end max_bytes more next in if ltb max_bytes next then end else later

-- The loop of the tail, over the characters from the end of a text of `len` bytes.
tail_start : ℕ → ℕ → List (ℕ × ℕ) → ℕ → ℕ
tail_start len max_bytes [] start = start
tail_start len max_bytes ((index, ch) ∷ more) start =
    let later = tail_start len max_bytes more index in
    if ltb max_bytes (len - index) then start else later

-- The text that is kept; `none` is the panic of a slice.
unfoldable pub selected : Text → ℕ → Bool → Option Text
unfolding head_end tail_start
selected text max_bytes true =
    slice_from text (
      tail_start (utf8_byte_len text) max_bytes (reverse (char_indices 0 text))
        (utf8_byte_len text))
selected text max_bytes false = slice_to text (head_end max_bytes (char_indices 0 text) 0)

unfoldable pub truncate_utf8 : Text → ℕ → Bool → Option Truncation
truncate_utf8 text max_bytes keep_tail =
    let original_bytes = utf8_byte_len text in
    if leb original_bytes max_bytes
    then some (record { text = text; original_bytes = original_bytes; truncated = false })
    else Option.map
        (λ kept. record { text = kept; original_bytes = original_bytes; truncated = true })
        (selected text max_bytes keep_tail)

unfoldable pub truncate_head_utf8 : Text → ℕ → Option Truncation
truncate_head_utf8 text max_bytes = truncate_utf8 text max_bytes false

unfoldable pub truncate_tail_utf8 : Text → ℕ → Option Truncation
truncate_tail_utf8 text max_bytes = truncate_utf8 text max_bytes true

-- The loop of `truncate_string_to_bytes_from_end`.
from_end : ℕ → List (ℕ × ℕ) → ℕ → ℕ → ℕ
from_end max_bytes [] start output_bytes = start
from_end max_bytes ((index, ch) ∷ more) start output_bytes =
    let char_bytes = len_utf8 ch in
    let later = from_end max_bytes more index (output_bytes + char_bytes) in
    if ltb max_bytes (output_bytes + char_bytes) then start else later

unfoldable pub truncate_string_to_bytes_from_end : Text → ℕ → Option Text
unfolding from_end
truncate_string_to_bytes_from_end text max_bytes =
    if max_bytes == 0
    then some []
    else slice_from text (from_end max_bytes (reverse (char_indices 0 text)) (utf8_byte_len text) 0)

head_end-fit :
    (m at : ℕ) (s : Text)
    → at ≤ m
    → head_end m (char_indices at s) at ≡ at + utf8_byte_len (fit (m - at) s).0
unfolding head_end char_indices fit utf8_byte_len
head_end-fit m at [] h = omega arith
head_end-fit m at (c ∷ s) h =
    let less : (m - at) - len_utf8 c ≡ m - (at + len_utf8 c) = omega arith in
    rw (less) (ground (arith, head_end-fit m (at + len_utf8 c) s))

tail_start-fit :
    (len m at : ℕ) (s : Text)
    → at ≤ len
    → len - at ≤ m
    → utf8_byte_len s ≤ at
    → tail_start len m (char_indices_back at s) at ≡ at - utf8_byte_len (fit (m - (len - at)) s).0
unfolding tail_start char_indices_back fit utf8_byte_len
tail_start-fit len m at [] h k l = omega arith
tail_start-fit len m at (c ∷ s) h k l =
    let less : (m - (len - at)) - len_utf8 c ≡ m - (len - (at - len_utf8 c)) = omega arith in
    rw (less) (ground (arith, tail_start-fit len m (at - len_utf8 c) s))

from_end-tail_start :
    (len m at : ℕ) (s : Text)
    → at ≤ len
    → utf8_byte_len s ≤ at
    → from_end m (char_indices_back at s) at (len - at)
      ≡ tail_start len m (char_indices_back at s) at
unfolding tail_start char_indices_back from_end utf8_byte_len
from_end-tail_start len m at [] h l = refl
from_end-tail_start len m at (c ∷ s) h l =
    let more : (len - at) + len_utf8 c ≡ len - (at - len_utf8 c) = omega arith in
    rw (more) (ground (arith, from_end-tail_start len m (at - len_utf8 c) s))
