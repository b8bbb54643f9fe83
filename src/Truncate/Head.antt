-- ===== src/Truncate/Head.antt =====
-- `truncate_head` of truncate.rs: the first lines that are within both limits.
pub mod Bounds
use mathlib.Core.List.{append_assoc, append-nil}
use ri.Base.{
  ℕ, zero, suc, ◌+◌, ◌-◌, ◌≤◌, ◌<◌, ◌≡◌, refl, sym, ap, ◌∙◌, subst, Bool, ◌&&◌, not, Bool-cases,
  true, false, List, [], ◌∷◌, ◌++◌, Text, arith, ltb, leb, ◌==◌, if◌then◌else◌, inl, inr, is_empty,
  length, take, Option, none, some, is_some, take_all, length-append, take-take, length-take,
  length-take-le, length-take-le_length,
}
use ri.Truncate.Bytes.{utf8_byte_len}
use ri.Truncate.Result.{TruncatedBy, lines, bytes, TruncationOptions, TruncationResult}
use ri.Truncate.Lines.{
  split_lines, join, newline_after, length-split_lines, join-split_lines, utf8_byte_len-join_snoc,
}

-- `lines.first().map(|line| line.len()).unwrap_or_default()`.
first_bytes : List Text → ℕ
first_bytes [] = 0
first_bytes (l ∷ ls) = utf8_byte_len l

-- The loop: the lines that are kept, their bytes, and why it has ended.
head_loop : ℕ → List Text → ℕ → List Text → ℕ → List Text × ℕ × TruncatedBy
head_loop max_bytes [] index output output_bytes = (output, output_bytes, lines)
head_loop max_bytes (line ∷ more) index output output_bytes =
    let line_bytes = utf8_byte_len line + (if ltb 0 index then 1 else 0) in
    let later =
      head_loop max_bytes more (index + 1) (output ++ line ∷ []) (output_bytes + line_bytes) in
    if ltb max_bytes (output_bytes + line_bytes) then (output, output_bytes, bytes) else later

unfoldable pub truncate_head : Text → TruncationOptions → TruncationResult
unfolding first_bytes head_loop
truncate_head content options =
    let max_lines = options.max_lines in
    let max_bytes = options.max_bytes in
    let total_bytes = utf8_byte_len content in
    let parts = split_lines content in
    let total_lines = length parts in
    let (output, output_bytes, by) = head_loop max_bytes (take max_lines parts) 0 [] 0 in
    let reason =
      if leb max_lines (length output) && leb output_bytes max_bytes then lines else by in
    let output_content = join output in
    if leb total_lines max_lines && leb total_bytes max_bytes
    then record {
      content = content;
      truncated = false;
      truncated_by = none;
      total_lines = total_lines;
      total_bytes = total_bytes;
      output_lines = total_lines;
      output_bytes = total_bytes;
      last_line_partial = false;
      first_line_exceeds_limit = false;
      max_lines = max_lines;
      max_bytes = max_bytes;
    }
    else if ltb max_bytes (first_bytes parts)
    then record {
      content = [];
      truncated = true;
      truncated_by = some bytes;
      total_lines = total_lines;
      total_bytes = total_bytes;
      output_lines = 0;
      output_bytes = 0;
      last_line_partial = false;
      first_line_exceeds_limit = true;
      max_lines = max_lines;
      max_bytes = max_bytes;
    }
    else record {
      content = output_content;
      truncated = true;
      truncated_by = some reason;
      total_lines = total_lines;
      total_bytes = total_bytes;
      output_lines = length output;
      output_bytes = utf8_byte_len output_content;
      last_line_partial = false;
      first_line_exceeds_limit = false;
      max_lines = max_lines;
      max_bytes = max_bytes;
    }
