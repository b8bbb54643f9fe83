-- ===== src/Truncate/Samples.antt =====
-- The cuts at concrete inputs: tests of the definitions, and uses of the theorems.
use ri.Base.{
  ◌≡◌, refl, ◌≤◌, ◌<◌, ◌++◌, [], ◌∷◌, Text, codes, true, some, arith, ltb, take, length, reverse,
  is_some,
}
use ri.Truncate.Bytes.{utf8_byte_len, len_utf8}
use ri.Truncate.Fit.{IsFull}
use ri.Truncate.Utf8.{Truncation, truncate_tail_utf8}
use ri.Truncate.Utf8.Kept.{fit_back, truncate_tail_utf8_lem}
use ri.Truncate.Lines.{split_lines, join}
use ri.Truncate.Result.{TruncationOptions, TruncationResult, lines, truncate_line}
use ri.Truncate.Head.{truncate_head}
use ri.Truncate.Head.Bounds.{Cause, truncate_head_lem}
use ri.Truncate.Tail.{tail_lines, truncate_tail}
use ri.Truncate.Tail.Bounds.{TailCause, truncate_tail_lem}
use ri.Truncate.Tail.Label.{truncate_tail-one_line}

-- Three lines, with a character of two bytes and one of four.
abbrev sample : Text
sample = codes "one" ++ 10 ∷ (0xe9 ∷ (0x1f600 ∷ (10 ∷ codes "three")))

abbrev limits : TruncationOptions
limits = record { max_lines = 2; max_bytes = 8 }

truncate_tail_utf8_lem_example :
    (r : Truncation) × (cut : Text) × (truncate_tail_utf8 sample 7 ≡ some r)
    × (cut ++ r.text ≡ sample)
    × (utf8_byte_len r.text ≤ 7)
    × IsFull 7 r.text (reverse cut)
    × (r.truncated ≡ ltb 7 (utf8_byte_len sample))
    × (r.original_bytes ≡ utf8_byte_len sample)
truncate_tail_utf8_lem_example = truncate_tail_utf8_lem sample 7

truncate_head_lem_example :
    let r = truncate_head sample limits in
    let parts = split_lines sample in
    (r.content ≡ join (take r.output_lines parts))
    × (r.output_lines ≤ limits.max_lines)
    × (utf8_byte_len r.content ≤ limits.max_bytes)
    × (r.output_bytes ≡ utf8_byte_len r.content)
    × Cause limits parts r.output_lines r.truncated_by
    × (r.truncated ≡ is_some r.truncated_by)
    × (r.total_lines ≡ length parts)
    × (r.total_bytes ≡ utf8_byte_len sample)
truncate_head_lem_example = truncate_head_lem sample limits

truncate_tail_lem_example :
    let parts = tail_lines sample in
    (r : TruncationResult) × (truncate_tail sample limits ≡ some r)
    × (r.output_lines ≤ limits.max_lines)
    × (utf8_byte_len r.content ≤ limits.max_bytes)
    × (r.output_bytes ≡ utf8_byte_len r.content)
    × TailCause limits sample parts r r.truncated_by r.last_line_partial
    × (r.truncated ≡ is_some r.truncated_by)
    × (r.total_lines ≡ length parts)
    × (r.total_bytes ≡ utf8_byte_len sample)
truncate_tail_lem_example = truncate_tail_lem sample limits

three_alone : tail_lines (codes "three") ≡ codes "three" ∷ []
unfolding tail_lines split_lines
three_alone = refl

three_long : 2 < utf8_byte_len (codes "three")
unfolding utf8_byte_len len_utf8
three_long = omega arith

truncate_tail-one_line_example :
    (r : TruncationResult) × (truncate_tail
        (codes "three")
        (record { max_lines = 1; max_bytes = 2 })
      ≡ some r)
    × (r.last_line_partial ≡ true)
    × (r.output_lines ≡ r.total_lines)
    × (r.content ≡ fit_back 2 (codes "three"))
    × (r.truncated_by ≡ some lines)
truncate_tail-one_line_example = truncate_tail-one_line (codes "three") 2 three_alone three_long

-- Tests on the same text.
head_content : (truncate_head sample limits).content ≡ codes "one"
unfolding truncate_head split_lines join utf8_byte_len len_utf8
head_content = refl

line_cut : (truncate_line (codes "abc") 2).text ≡ codes "ab... [truncated]"
unfolding truncate_line
line_cut = refl
