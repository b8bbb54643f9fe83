-- ===== src/Truncate/Tail/Bounds.antt =====
-- What `truncate_tail` of truncate.rs keeps, and why no more.
use mathlib.Core.List.{append_assoc, append-nil, reverse-cons}
use ri.Base.{
  ℕ, suc, ◌+◌, ◌≤◌, ◌<◌, ◌≡◌, refl, sym, ap, ◌∙◌, subst, Bool, ◌&&◌, Bool-cases, true, false, List,
  [], ◌∷◌, ◌++◌, Text, arith, ltb, leb, if◌then◌else◌, inl, inr, ◌⊎◌, length, take, Option, none,
  some, is_some, take_all, reverse, last, take-take, length-take, length-take-le,
  length-take-le_length, length-reverse, last-reverse,
}
use ri.Truncate.Bytes.{utf8_byte_len}
use ri.Truncate.Utf8.Kept.{fit_back, from_end_lem, fit_back-le}
use ri.Truncate.Result.{TruncatedBy, lines, bytes, TruncationOptions, TruncationResult}
use ri.Truncate.Lines.{join, utf8_byte_len-join_cons}
use ri.Truncate.Tail.{tail_lines, tail_loop, tail_result, truncate_tail, TailState}

-- The last `n` of the lines.
abbrev pub last_lines : ℕ → List Text → List Text
last_lines n parts = reverse (take n (reverse parts))

-- Why the loop has stopped after `k` of the lines `back`, which go before `output`, the last first.
abbrev pub Stopped : ℕ → List Text → List Text → ℕ → TruncatedBy → Type 0
Stopped m output back k lines = k ≡ length back
Stopped m output back k bytes =
    (k < length back) × (m < utf8_byte_len (join (reverse (take (suc k) back) ++ output)))

-- What the loop makes of the lines in `output`: whole lines are added; or, if the first of `back` is
-- too long and there are none yet, the end of it is.
TailKept : ℕ → List Text → List Text → TailState → Bool → Type 0
TailKept m output back s false =
    (k : ℕ) × (s.output ≡ reverse (take k back) ++ output)
    × (k ≤ length back)
    × (utf8_byte_len (join s.output) ≤ m)
    × Stopped m output back k s.truncated_by
TailKept m output back s true =
    (l : Text) × (more : List Text) × (output ≡ [])
    × (back ≡ l ∷ more)
    × (m < utf8_byte_len l)
    × (s.output ≡ fit_back m l ∷ [])

-- One more line is taken from `back`.
reverse-take-cons :
    (k : ℕ) (l : Text) (back output : List Text)
    → reverse (take k back) ++ l ∷ output ≡ reverse (take (suc k) (l ∷ back)) ++ output
reverse-take-cons k l back output =
    sym (append_assoc (reverse (take k back)) (l ∷ []) output)
    ∙ ap (λ ls. ls ++ output) (sym (reverse-cons l (take k back)))

Stopped-next :
    (m : ℕ) (l : Text) (back output : List Text) (k : ℕ) (by : TruncatedBy)
    → Stopped m (l ∷ output) back k by
    → Stopped m output (l ∷ back) (suc k) by
Stopped-next m l back output k lines h = omega arith
Stopped-next m l back output k bytes (h, t) = (
  omega arith,
  subst (λ ls. m < utf8_byte_len (join ls)) (reverse-take-cons (suc k) l back output) t,
)

TailKept-next :
    (m : ℕ) (l : Text) (back output : List Text) (s : TailState) (partial : Bool)
    → TailKept m (l ∷ output) back s partial
    → TailKept m output (l ∷ back) s partial
unfolding TailKept
TailKept-next m l back output s false (k, o, b, f, c) = (
  suc k,
  o ∙ reverse-take-cons k l back output,
  omega arith,
  f,
  Stopped-next m l back output k s.truncated_by c,
)
TailKept-next m l back output s true (k, more, e, f, t, o) = absurd (ground (arith, e))

empty_bytes : utf8_byte_len (join []) ≡ 0
unfolding utf8_byte_len join
empty_bytes = refl

tail_loop_lem :
    (m : ℕ) (back output : List Text) (used : ℕ)
    → used ≡ utf8_byte_len (join output)
    → used ≤ m
    → (s : TailState) × (tail_loop m back output used ≡ some s)
      × (s.output_bytes ≤ m)
      × TailKept m output back s s.last_line_partial
unfolding tail_loop TailKept
tail_loop_lem m [] output used e h = (_, refl, h, (0, refl, omega arith, omega arith, refl))
tail_loop_lem m (l ∷ back) [] used e h = elim (Bool-cases (ltb m (used + (utf8_byte_len l + 0)))) [
  | inl over ↦
      rw (over, from_end_lem l m)
        (_, refl, h, (l, back, refl, refl, (ground (arith, empty_bytes, e)), refl))
  | inr fits ↦
      let (s, q, u, t) =
        tail_loop_lem m back (l ∷ []) (used + (utf8_byte_len l + 0))
          (omega (arith, utf8_byte_len-join_cons l [])) (ground arith) in
      rw (fits) (s, q, u, TailKept-next m l back [] s s.last_line_partial t)
]
tail_loop_lem m (l ∷ back) (j ∷ output) used e h =
    elim (Bool-cases (ltb m (used + (utf8_byte_len l + 1)))) [
      | inl over ↦
          let more : m < utf8_byte_len (join (l ∷ (j ∷ output))) =
            ground (arith, utf8_byte_len-join_cons l (j ∷ output)) in
          rw (over) (_, refl, h, (0, refl, omega arith, omega arith, (omega arith, more)))
      | inr fits ↦
          let (s, q, u, t) =
            tail_loop_lem m back (l ∷ (j ∷ output)) (used + (utf8_byte_len l + 1))
              (omega (arith, utf8_byte_len-join_cons l (j ∷ output))) (ground arith) in
          rw (fits) (s, q, u, TailKept-next m l back (j ∷ output) s s.last_line_partial t)
    ]

-- What the result of `truncate_tail` holds of the lines `parts`, by what it says itself: whether it
-- is truncated, by what, and whether its only line is a part of one.
abbrev pub TailCause :
    TruncationOptions → Text → List Text → TruncationResult → Option TruncatedBy → Bool → Type 0
TailCause o content parts r none partial =
    (r.content ≡ content) × (r.output_lines ≡ length parts) × (partial ≡ false)
TailCause o content parts r (some by) true =
    (l : Text) × (last parts ≡ some l)
    × (o.max_bytes < utf8_byte_len l)
    × (r.content ≡ fit_back o.max_bytes l)
    × (r.output_lines ≡ 1)
TailCause o content parts r (some lines) false =
    (r.content ≡ join (last_lines r.output_lines parts))
    × ((r.output_lines ≡ o.max_lines) ⊎ (r.output_lines ≡ length parts))
TailCause o content parts r (some bytes) false =
    (r.content ≡ join (last_lines r.output_lines parts))
    × (r.output_lines < length parts)
    × (o.max_bytes < utf8_byte_len (join (last_lines (suc r.output_lines) parts)))

TailKept-cause :
    (o : TruncationOptions) (content : Text) (parts : List Text) (s : TailState)
    → s.output_bytes ≤ o.max_bytes
    → TailKept o.max_bytes [] (take o.max_lines (reverse parts)) s s.last_line_partial
    → let r = tail_result content o (length parts) s in
      (r.output_lines ≤ o.max_lines)
      × (utf8_byte_len r.content ≤ o.max_bytes)
      × TailCause o content parts r r.truncated_by r.last_line_partial
unfolding tail_result TailKept join
TailKept-cause o content parts s u t = by_partial s.last_line_partial t
  where
    r : TruncationResult
    r = tail_result content o (length parts) s

    back : List Text
    back = take o.max_lines (reverse parts)

    either :
        (c : Bool)
        → TailCause o content parts r (some lines) false
        → TailCause o content parts r (some (if c then lines else lines)) false
    either true h = h
    either false h = h

    by_reason :
        (by : TruncatedBy)
        → length s.output ≤ length back
        → s.output ≡ last_lines (length s.output) parts
        → Stopped o.max_bytes [] back (length s.output) by
        → TailCause o content parts r
            (some (
              if leb o.max_lines (length s.output) && leb s.output_bytes o.max_bytes
              then lines
              else by))
            false
    by_reason lines b e h =
        let many = length-take-le o.max_lines (reverse parts) in
        let end : (length s.output ≡ o.max_lines) ⊎ (length s.output ≡ length parts) =
          elim (Bool-cases (leb (length parts) o.max_lines)) [
            | inl few ↦ inr (
                h
                ∙ ap length
                    (take_all o.max_lines (reverse parts) (ground (arith, length-reverse parts)))
                ∙ length-reverse parts)
            | inr more ↦
                inl (
                  h
                  ∙ length-take o.max_lines (reverse parts) (ground (arith, length-reverse parts)))
          ] in
        either (leb o.max_lines (length s.output) && leb s.output_bytes o.max_bytes)
          (ap join e, end)
    by_reason bytes b e (h, m) =
        let less = length-take-le o.max_lines (reverse parts) in
        let fewer = length-take-le_length o.max_lines (reverse parts) in
        let under : leb o.max_lines (length s.output) ≡ false = ground arith in
        rw (under) (
          ap join e,
          omega (arith, length-reverse parts),
          subst (λ ls. o.max_bytes < utf8_byte_len (join ls))
              (append-nil _
                ∙ ap reverse
                    (take-take (suc (length s.output)) o.max_lines (reverse parts) (omega arith)))
              m,
        )

    by_partial :
        (partial : Bool)
        → TailKept o.max_bytes [] back s partial
        → (length s.output ≤ o.max_lines)
          × (utf8_byte_len (join s.output) ≤ o.max_bytes)
          × TailCause o content parts r r.truncated_by partial
    by_partial true (l, more, e, b, m, out) =
        let some_lines = length-take-le o.max_lines (reverse parts) in
        let one : length s.output ≡ 1 = ap length out in
        (
          omega (arith, ap length b),
          rw (out) (fit_back-le o.max_bytes l),
          (l, last-reverse o.max_lines parts l more b, m, ap join out, one),
        )
    by_partial false (k, out, b, f, c) =
        let less = length-take-le o.max_lines (reverse parts) in
        let fewer = length-take-le_length o.max_lines (reverse parts) in
        let out_is : s.output ≡ last_lines k parts =
          out ∙ append-nil _ ∙ ap reverse (take-take k o.max_lines (reverse parts) (omega arith)) in
        let long : length s.output ≡ k =
          ap length out_is
          ∙ length-reverse (take k (reverse parts))
          ∙ length-take k (reverse parts) (omega arith) in
        (
          omega arith,
          f,
          by_reason s.truncated_by (omega arith) (out_is ∙ ap (λ n. last_lines n parts) (sym long))
              (subst (λ n. Stopped o.max_bytes [] back n s.truncated_by) (sym long) c),
        )

-- `truncate_tail` never panics, and its result is within both limits: the text whole; or its last
-- lines, none of them cut, and no more because there are `max_lines`, or all, or one more line would
-- be more than `max_bytes` bytes; or, where the last line alone is more than that, the longest end
-- of it that is not. All counts in the result are those of the texts.
pub truncate_tail_lem :
    (content : Text) (o : TruncationOptions)
    → let parts = tail_lines content in
      (r : TruncationResult) × (truncate_tail content o ≡ some r)
      × (r.output_lines ≤ o.max_lines)
      × (utf8_byte_len r.content ≤ o.max_bytes)
      × (r.output_bytes ≡ utf8_byte_len r.content)
      × TailCause o content parts r r.truncated_by r.last_line_partial
      × (r.truncated ≡ is_some r.truncated_by)
      × (r.total_lines ≡ length parts)
      × (r.total_bytes ≡ utf8_byte_len content)
unfolding truncate_tail
truncate_tail_lem content o =
    let parts = tail_lines content in
    elim (Bool-cases (leb (length parts) o.max_lines && leb (utf8_byte_len content) o.max_bytes)) [
      | inl fits ↦
          rw (fits)
            (_, refl, ground arith, ground arith, refl, (refl, refl, refl), refl, refl, refl)
      | inr over ↦
          let (s, q, u, t) =
            tail_loop_lem o.max_bytes (take o.max_lines (reverse parts)) [] 0 (sym empty_bytes)
              (omega arith) in
          let (x, y, z) = TailKept-cause o content parts s u t in
          rw (over, q) (_, refl, x, y, refl, z, refl, refl, refl)
    ]
