-- ===== src/Truncate/Head/Bounds.antt =====
-- What `truncate_head` of truncate.rs keeps, and why no more.
use mathlib.Core.List.{append_assoc, append-nil}
use ri.Base.{
  ℕ, suc, ◌+◌, ◌≤◌, ◌<◌, ◌≡◌, refl, sym, ap, ◌∙◌, subst, Bool, ◌&&◌, Bool-cases, true, false, List,
  [], ◌∷◌, ◌++◌, Text, arith, ltb, leb, if◌then◌else◌, inl, inr, length, take, Option, none, some,
  is_some, take_all, length-append, take-take, length-take, length-take-le, length-take-le_length,
}
use ri.Truncate.Bytes.{utf8_byte_len}
use ri.Truncate.Result.{TruncatedBy, lines, bytes, TruncationOptions}
use ri.Truncate.Lines.{
  split_lines, join, newline_after, length-split_lines, join-split_lines, utf8_byte_len-join_snoc,
}
use ri.Truncate.Head.{first_bytes, head_loop, truncate_head}

-- Why a loop over `parts` that had kept `output` has stopped after `k` of them.
abbrev pub Stopped : ℕ → List Text → List Text → ℕ → TruncatedBy → Type 0
Stopped max_bytes output parts k lines = k ≡ length parts
Stopped max_bytes output parts k bytes =
    (k < length parts) × (max_bytes < utf8_byte_len (join (output ++ take (suc k) parts)))

-- What the loop over `parts` makes of the lines in `output`.
Filled : ℕ → List Text → List Text → List Text × ℕ × TruncatedBy → Type 0
Filled max_bytes output parts (out, n, by) =
    (k : ℕ) × (out ≡ output ++ take k parts)
    × (k ≤ length parts)
    × (n ≡ utf8_byte_len (join out))
    × (n ≤ max_bytes)
    × Stopped max_bytes output parts k by

Filled-stop :
    (m : ℕ) (l : Text) (parts output : List Text) (used : ℕ)
    → used ≡ utf8_byte_len (join output)
    → used ≤ m
    → m < used + (utf8_byte_len l + newline_after output)
    → Filled m output (l ∷ parts) (output, used, bytes)
unfolding Filled
Filled-stop m l parts output used e h over = (
  0,
  sym (append-nil output),
  omega arith,
  e,
  h,
  (omega arith, omega (arith, utf8_byte_len-join_snoc output l)),
)

Filled-next :
    (m : ℕ) (l : Text) (parts output : List Text) (r : List Text × ℕ × TruncatedBy)
    → Filled m (output ++ l ∷ []) parts r
    → Filled m output (l ∷ parts) r
unfolding Filled
Filled-next m l parts output (out, n, lines) (k, o, b, u, f, s) =
    (suc k, o ∙ append_assoc output (l ∷ []) (take k parts), omega arith, u, f, omega arith)
Filled-next m l parts output (out, n, bytes) (k, o, b, u, f, (s, t)) = (
  suc k,
  o ∙ append_assoc output (l ∷ []) (take k parts),
  omega arith,
  u,
  f,
  (
    omega arith,
    subst (λ ls. m < utf8_byte_len (join ls)) (append_assoc output (l ∷ []) (take (suc k) parts)) t,
  ),
)

index-newline :
    (output : List Text) (index : ℕ)
    → index ≡ length output
    → (if ltb 0 index then 1 else 0) ≡ newline_after output
index-newline [] index e = ground arith
index-newline (l ∷ output) index e = ground arith

head_loop_lem :
    (m : ℕ) (parts : List Text) (index : ℕ) (output : List Text) (used : ℕ)
    → index ≡ length output
    → used ≡ utf8_byte_len (join output)
    → used ≤ m
    → Filled m output parts (head_loop m parts index output used)
unfolding head_loop Filled
head_loop_lem m [] index output used i e h = (0, sym (append-nil output), omega arith, e, h, refl)
head_loop_lem m (l ∷ parts) index output used i e h =
    let b = utf8_byte_len l + (if ltb 0 index then 1 else 0) in
    let same = index-newline output index i in
    elim (Bool-cases (ltb m (used + b))) [
      | inl over ↦ rw (over) (Filled-stop m l parts output used e h (ground (arith, same)))
      | inr fits ↦ rw (fits) (
          Filled-next m l parts output _ (
            head_loop_lem m parts (index + 1) (output ++ l ∷ []) (used + b)
              (omega (arith, length-append output (l ∷ [])))
              (omega (arith, utf8_byte_len-join_snoc output l, same)) (ground arith)))
    ]

-- Why `n` of the lines were kept.
abbrev pub Cause : TruncationOptions → List Text → ℕ → Option TruncatedBy → Type 0
Cause o parts n none = n ≡ length parts
Cause o parts n (some lines) = (n ≡ o.max_lines) × (n < length parts)
Cause o parts n (some bytes) =
    (n < length parts) × (o.max_bytes < utf8_byte_len (join (take (suc n) parts)))

first_bytes-take : (parts : List Text) → first_bytes parts ≡ utf8_byte_len (join (take 1 parts))
unfolding first_bytes join utf8_byte_len
first_bytes-take [] = refl
first_bytes-take (l ∷ parts) = refl

abbrev reason_of : TruncationOptions → List Text × ℕ × TruncatedBy → TruncatedBy
reason_of o (out, n, by) = if leb o.max_lines (length out) && leb n o.max_bytes then lines else by

-- The lines that the loop keeps are the first of the text, and the reason is the true one.
Filled-Cause :
    (o : TruncationOptions) (parts : List Text) (r : List Text × ℕ × TruncatedBy)
    → (leb (length parts) o.max_lines && leb (utf8_byte_len (join parts)) o.max_bytes) ≡ false
    → Filled o.max_bytes [] (take o.max_lines parts) r
    → let out = r.0 in
      (out ≡ take (length out) parts)
      × (length out ≤ o.max_lines)
      × (utf8_byte_len (join out) ≤ o.max_bytes)
      × Cause o parts (length out) (some (reason_of o r))
unfolding Filled
Filled-Cause o parts (out, n, by) over (k, e, b, u, f, s) =
    let less = length-take-le o.max_lines parts in
    let fewer = length-take-le_length o.max_lines parts in
    let out_is : out ≡ take k parts = e ∙ take-take k o.max_lines parts (omega arith) in
    let long : length out ≡ k = ap length out_is ∙ length-take k parts (omega arith) in
    (
      rw (long) out_is,
      omega arith,
      omega arith,
      rw (long) (by_reason k n by b (rw⁻¹ (out_is) u) f s),
    )
  where
    either :
        (c : Bool)
        → (k : ℕ) → Cause o parts k (some lines)
        → Cause o parts k (some (if c then lines else lines))
    either true k h = h
    either false k h = h

    by_reason :
        (k n : ℕ) (by : TruncatedBy)
        → k ≤ length (take o.max_lines parts)
        → n ≡ utf8_byte_len (join (take k parts))
        → n ≤ o.max_bytes
        → Stopped o.max_bytes [] (take o.max_lines parts) k by
        → Cause o parts k (some (if leb o.max_lines k && leb n o.max_bytes then lines else by))
    by_reason k n lines b u f s =
        either (leb o.max_lines k && leb n o.max_bytes) k
          (elim (Bool-cases (leb (length parts) o.max_lines)) [
            | inl few ↦
                let all = take_all o.max_lines parts (ground arith) in
                let whole : n ≡ utf8_byte_len (join parts) =
                  u
                  ∙ ap (λ ls. utf8_byte_len (join ls))
                      (take_all k parts (omega (arith, s, ap length all))) in
                absurd (ground (arith, whole))
            | inr many ↦
                let full = length-take o.max_lines parts (ground arith) in
                (omega arith, ground arith)
          ])
    by_reason k n bytes b u f (s, t) =
        let less = length-take-le o.max_lines parts in
        let fewer = length-take-le_length o.max_lines parts in
        let under : leb o.max_lines k ≡ false = ground arith in
        rw (under) (
          omega arith,
          subst (λ ls. o.max_bytes < utf8_byte_len (join ls))
              (take-take (suc k) o.max_lines parts (omega arith)) t,
        )

-- The result of `truncate_head` is the first `output_lines` lines of the text, none of them cut;
-- they are within both limits; and `truncated_by` tells why there are no more: all lines are there,
-- or there are `max_lines`, or one more line would be more than `max_bytes` bytes. All counts in the
-- result are those of the texts.
pub truncate_head_lem :
    (content : Text) (o : TruncationOptions)
    → let r = truncate_head content o in
      let parts = split_lines content in
      (r.content ≡ join (take r.output_lines parts))
      × (r.output_lines ≤ o.max_lines)
      × (utf8_byte_len r.content ≤ o.max_bytes)
      × (r.output_bytes ≡ utf8_byte_len r.content)
      × Cause o parts r.output_lines r.truncated_by
      × (r.truncated ≡ is_some r.truncated_by)
      × (r.total_lines ≡ length parts)
      × (r.total_bytes ≡ utf8_byte_len content)
unfolding truncate_head join utf8_byte_len
truncate_head_lem content o =
    let parts = split_lines content in
    elim (Bool-cases (leb (length parts) o.max_lines && leb (utf8_byte_len content) o.max_bytes)) [
      | inl fits ↦ rw (fits) (
        sym (ap join (take_all (length parts) parts (omega arith)) ∙ join-split_lines content),
        ground arith,
        ground arith,
        refl,
        refl,
        refl,
        refl,
        refl,
      )
      | inr over ↦ elim (Bool-cases (ltb o.max_bytes (first_bytes parts))) [
        | inl first ↦
            rw (over, first)
              (
                refl,
                omega arith,
                omega arith,
                refl,
                (length-split_lines content, ground (arith, first_bytes-take parts)),
                refl,
                refl,
                refl,
              )
        | inr fits ↦
            let (x, y, z, w) =
              Filled-Cause o parts _ (rw (join-split_lines content) over) (
                head_loop_lem o.max_bytes (take o.max_lines parts) 0 [] 0 refl refl
                  (omega arith)) in
            rw (over, fits) (ap join x, y, z, refl, w, refl, refl, refl)
      ]
    ]
