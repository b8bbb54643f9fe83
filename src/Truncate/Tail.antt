-- ===== src/Truncate/Tail.antt =====
-- `truncate_tail` of truncate.rs: the last lines that are within both limits, or the end of the
-- last line where that alone is too long.
pub mod Bounds
pub mod Label
use mathlib.Core.Option
use ri.Base.{
  ℕ, ◌+◌, Bool, ◌&&◌, not, true, false, List, [], ◌∷◌, ◌++◌, reverse, Text, ltb, leb, if◌then◌else◌,
  is_empty, length, take, Option, none, some, last, map,
}
use ri.Truncate.Bytes.{utf8_byte_len}
use ri.Truncate.Utf8.{truncate_string_to_bytes_from_end}
use ri.Truncate.Result.{TruncatedBy, lines, bytes, TruncationOptions, TruncationResult}
use ri.Truncate.Lines.{split_lines, join}

-- `Vec::pop`, for what stays.
abbrev pub pop : List Text → List Text
pop [] = []
pop (l ∷ []) = []
pop (l ∷ (k ∷ ls)) = l ∷ pop (k ∷ ls)

-- `lines.last() == Some(&"")`.
abbrev pub ends_empty : Option Text → Bool
ends_empty none = false
ends_empty (some l) = is_empty l

-- The lines that are counted: without the empty part after a last newline.
unfoldable pub tail_lines : Text → List Text
tail_lines content =
    let parts = split_lines content in
    if ltb 1 (length parts) && ends_empty (last parts) then pop parts else parts

pub record TailState : Type 0 where
  pub output : List Text
  pub output_bytes : ℕ
  pub truncated_by : TruncatedBy
  pub last_line_partial : Bool

-- The loop, over the lines from the last; `none` is a panic.
unfoldable pub tail_loop : ℕ → List Text → List Text → ℕ → Option TailState
tail_loop max_bytes [] output output_bytes = some (record {
  output = output;
  output_bytes = output_bytes;
  truncated_by = lines;
  last_line_partial = false;
})
tail_loop max_bytes (line ∷ more) output output_bytes =
    let line_bytes = utf8_byte_len line + (if not (is_empty output) then 1 else 0) in
    let later = tail_loop max_bytes more (line ∷ output) (output_bytes + line_bytes) in
    if ltb max_bytes (output_bytes + line_bytes)
    then (if is_empty output
        then Option.map
            (λ truncated_line. record {
              output = truncated_line ∷ output;
              output_bytes = output_bytes;
              truncated_by = bytes;
              last_line_partial = true;
            })
            (truncate_string_to_bytes_from_end line max_bytes)
        else some (record {
          output = output;
          output_bytes = output_bytes;
          truncated_by = bytes;
          last_line_partial = false;
        }))
    else later

-- The result, once the loop has ended.
tail_result : Text → TruncationOptions → ℕ → TailState → TruncationResult
tail_result content options total_lines s =
    let output_content = join s.output in
    record {
      content = output_content;
      truncated = true;
      truncated_by = some (
          if leb options.max_lines (length s.output) && leb s.output_bytes options.max_bytes
          then lines
          else s.truncated_by);
      total_lines = total_lines;
      total_bytes = utf8_byte_len content;
      output_lines = length s.output;
      output_bytes = utf8_byte_len output_content;
      last_line_partial = s.last_line_partial;
      first_line_exceeds_limit = false;
      max_lines = options.max_lines;
      max_bytes = options.max_bytes;
    }

unfoldable pub truncate_tail : Text → TruncationOptions → Option TruncationResult
unfolding tail_result
truncate_tail content options =
    let max_lines = options.max_lines in
    let max_bytes = options.max_bytes in
    let total_bytes = utf8_byte_len content in
    let parts = tail_lines content in
    let total_lines = length parts in
    if leb total_lines max_lines && leb total_bytes max_bytes
    then some (record {
      content = content;
      truncated = false;
      truncated_by = none;
      total_lines = total_lines;
      total_bytes = total_bytes;
      output_lines = total_lines;
      output_bytes = total_bytes;
      last_line_partial = false;
      first_line_exceeds_limit = false;
      max_lines = max_lines;
      max_bytes = max_bytes;
    })
    else Option.map (tail_result content options total_lines)
        (tail_loop max_bytes (take max_lines (reverse parts)) [] 0)
