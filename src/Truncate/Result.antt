-- ===== src/Truncate/Result.antt =====
-- The options and results of truncate.rs, and `truncate_line`.
use ri.Base.{ℕ, ◌*◌, Bool, true, false, Option, ◌++◌, Text, codes, leb, length, take, if◌then◌else◌}

abbrev pub default_max_lines : ℕ
default_max_lines = 2000

abbrev pub default_max_bytes : ℕ
default_max_bytes = 50 * 1024

abbrev pub grep_max_line_length : ℕ
grep_max_line_length = 500

pub data TruncatedBy : Type 0 where
  lines bytes : TruncatedBy

pub record TruncationOptions : Type 0 where
  pub max_lines : ℕ
  pub max_bytes : ℕ

abbrev pub default_options : TruncationOptions
default_options = record { max_lines = default_max_lines; max_bytes = default_max_bytes }

pub record TruncationResult : Type 0 where
  pub content : Text
  pub truncated : Bool
  pub truncated_by : Option TruncatedBy
  pub total_lines : ℕ
  pub total_bytes : ℕ
  pub output_lines : ℕ
  pub output_bytes : ℕ
  pub last_line_partial : Bool
  pub first_line_exceeds_limit : Bool
  pub max_lines : ℕ
  pub max_bytes : ℕ

pub record LineTruncation : Type 0 where
  pub text : Text
  pub was_truncated : Bool

unfoldable pub truncate_line : Text → ℕ → LineTruncation
truncate_line line max_chars =
    if leb (length line) max_chars
    then record { text = line; was_truncated = false }
    else record { text = take max_chars line ++ codes "... [truncated]"; was_truncated = true }
