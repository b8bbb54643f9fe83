-- ===== src/Truncate/Tail/Label.antt =====
-- What `truncate_tail` of truncate.rs says of a text of one long line, when one line is asked for.
use ri.Base.{◌≡◌, refl, ◌+◌, ◌<◌, ℕ, Text, [], ◌∷◌, true, false, arith, leb, ltb, some}
use ri.Truncate.Bytes.{utf8_byte_len}
use ri.Truncate.Utf8.Kept.{fit_back, from_end_lem}
use ri.Truncate.Result.{TruncationResult, lines}
use ri.Truncate.Lines.{join}
use ri.Truncate.Tail.{tail_lines, tail_loop, tail_result, truncate_tail}

-- Where one line is asked for and the text is one line of more than `max_bytes` bytes, the
-- result is a part of that line, so cut by bytes, and all lines are there; but `truncated_by` says
-- lines.
pub truncate_tail-one_line :
    (content : Text) (max_bytes : ℕ)
    → tail_lines content ≡ content ∷ []
    → max_bytes < utf8_byte_len content
    → (r : TruncationResult) × (truncate_tail content
          (record { max_lines = 1; max_bytes = max_bytes })
        ≡ some r)
      × (r.last_line_partial ≡ true)
      × (r.output_lines ≡ r.total_lines)
      × (r.content ≡ fit_back max_bytes content)
      × (r.truncated_by ≡ some lines)
unfolding truncate_tail tail_loop tail_result join
truncate_tail-one_line content m one long =
    let wide : leb (utf8_byte_len content) m ≡ false = ground arith in
    let over : ltb m (0 + (utf8_byte_len content + 0)) ≡ true = ground arith in
    rw (one, wide, over, from_end_lem content m) (_, refl, refl, refl, refl, ground arith)
