-- ===== src/Truncate/Lines.antt =====
-- Lines as truncate.rs has them: `split('\n')`, `join("\n")`, and the bytes of a join.
use ri.Base.{
  ℕ, ◌+◌, ◌≤◌, ◌≡◌, refl, sym, ap, ◌∙◌, Bool-cases, List, [], ◌∷◌, ◌++◌, Text, arith, ◌==◌,
  if◌then◌else◌, inl, inr, is_empty, length,
}
use ri.Truncate.Bytes.{len_utf8, utf8_byte_len, utf8_byte_len-append}

push_front : ℕ → List Text → List Text
push_front c [] = (c ∷ []) ∷ []
push_front c (l ∷ ls) = (c ∷ l) ∷ ls

-- `split('\n')`, which gives one part more than there are newlines.
unfoldable pub split_lines : Text → List Text
unfolding push_front
split_lines [] = [] ∷ []
split_lines (c ∷ s) = let rest = split_lines s in if c == 10 then [] ∷ rest else push_front c rest

-- `join("\n")`.
unfoldable pub join : List Text → Text
join [] = []
join (l ∷ []) = l
join (l ∷ (k ∷ ls)) = l ++ 10 ∷ join (k ∷ ls)

-- The byte for the newline between lines, where there are any before.
abbrev pub newline_after : List Text → ℕ
newline_after ls = if is_empty ls then 0 else 1

split_lines-cons : (s : Text) → (l : Text) × (ls : List Text) × (split_lines s ≡ l ∷ ls)
unfolding split_lines
split_lines-cons [] = ([], [], refl)
split_lines-cons (c ∷ s) =
    let (l, ls, e) = split_lines-cons s in
    elim (Bool-cases (c == 10)) [ inl h ↦ rw (h) (_, _, refl) | inr h ↦ rw (h, e) (_, _, refl) ]

pub length-split_lines : (s : Text) → 1 ≤ length (split_lines s)
length-split_lines s = let (l, ls, e) = split_lines-cons s in rw (e) (omega arith)

join-push_front : (c : ℕ) (l : Text) (ls : List Text) → join ((c ∷ l) ∷ ls) ≡ c ∷ join (l ∷ ls)
unfolding join
join-push_front c l [] = refl
join-push_front c l (k ∷ ls) = refl

pub join-split_lines : (s : Text) → join (split_lines s) ≡ s
unfolding split_lines join
join-split_lines [] = refl
join-split_lines (c ∷ s) =
    let (l, ls, e) = split_lines-cons s in
    elim (Bool-cases (c == 10)) [
      | inl h ↦ rw (h, e) (ground (arith, join-split_lines s))
      | inr h ↦
          rw (h, e)
            (join-push_front c l ls ∙ ap (λ t. c ∷ t) (sym (ap join e) ∙ join-split_lines s))
    ]

pub utf8_byte_len-join_snoc :
    (ls : List Text) (l : Text)
    → utf8_byte_len (join (ls ++ l ∷ []))
      ≡ utf8_byte_len (join ls) + (utf8_byte_len l + newline_after ls)
unfolding join utf8_byte_len len_utf8
utf8_byte_len-join_snoc [] l = omega arith
utf8_byte_len-join_snoc (k ∷ []) l = omega (arith, utf8_byte_len-append k (10 ∷ l))
utf8_byte_len-join_snoc (k ∷ (j ∷ ls)) l = omega (
  arith,
  utf8_byte_len-append k (10 ∷ join (j ∷ (ls ++ l ∷ []))),
  utf8_byte_len-append k (10 ∷ join (j ∷ ls)),
  utf8_byte_len-join_snoc (j ∷ ls) l,
)

pub utf8_byte_len-join_cons :
    (l : Text) (ls : List Text)
    → utf8_byte_len (join (l ∷ ls)) ≡ utf8_byte_len (join ls) + (utf8_byte_len l + newline_after ls)
unfolding join utf8_byte_len len_utf8
utf8_byte_len-join_cons l [] = omega arith
utf8_byte_len-join_cons l (k ∷ ls) = omega (arith, utf8_byte_len-append l (10 ∷ join (k ∷ ls)))
