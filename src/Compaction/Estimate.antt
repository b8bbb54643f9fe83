-- ===== src/Compaction/Estimate.antt =====
-- The estimates of compaction.rs. `to_string` stands for `serde_json::to_string`, where `none` is a
-- failure. A `u64` sum of numbers that come from a service wraps round, as in a release build; the
-- other sums are of characters in memory, and do not reach 64 bits.
use ri.Base.{
  u64_mod, ℕ, ◌+◌, ◌/◌, ◌%◌, Bool, true, false, ◌&&◌, Option, List, [], ◌∷◌, Text, codes, length,
  or_else, ltb, if◌then◌else◌, map,
}
use ri.Base.Maps.{TextMap}
use ri.Message.{
  Host, Message, Usage, StopReason, AssistantMessage, UserContent, UserContentValue,
  AssistantContent, ToolResultContent,
}
use ri.Session.Entry.{SessionMessage, SessionEntryMessage, CustomMessageContent}

abbrev pub estimated_image_chars : ℕ
estimated_image_chars = 4800

-- `div_ceil(4)`.
abbrev pub quarter : ℕ → ℕ
quarter n = (n + 3) / 4

unfoldable pub sum : List ℕ → ℕ
sum [] = 0
sum (n ∷ ns) = n + sum ns

unfoldable pub estimate_tokens : Text → ℕ
estimate_tokens text = quarter (length text)

pub user_content_chars : UserContent → ℕ
user_content_chars (UserContent.text t) = length t.text
user_content_chars (UserContent.image i) = estimated_image_chars

pub tool_result_chars : ToolResultContent → ℕ
tool_result_chars (ToolResultContent.text t) = length t.text
tool_result_chars (ToolResultContent.image i) = estimated_image_chars

unfoldable pub calculate_context_tokens : {H : Host} → Usage H → ℕ
calculate_context_tokens u =
    if ltb 0 u.total_tokens
    then u.total_tokens
    else (u.input + u.output + u.cache_read + u.cache_write) % u64_mod

unfoldable pub assistant_usage_is_valid : {H : Host} → AssistantMessage H → Bool
assistant_usage_is_valid m = usable m.stop_reason && ltb 0 (calculate_context_tokens m.usage)
  where
    usable : StopReason → Bool
    usable StopReason.error = false
    usable StopReason.aborted = false
    usable _ = true

user_value_chars : UserContentValue → ℕ
user_value_chars (UserContentValue.plain text) = length text
user_value_chars (UserContentValue.blocks blocks) = sum (map user_content_chars blocks)

custom_chars : CustomMessageContent → ℕ
custom_chars (CustomMessageContent.text text) = length text
custom_chars (CustomMessageContent.blocks blocks) = sum (map user_content_chars blocks)

unfoldable pub safe_json_stringify : {V : Type 0} → (V → Option Text) → V → Text
safe_json_stringify to_string value = or_else (codes "[unserializable]") (to_string value)

module _ {H : Host} (to_string : TextMap H.Value → Option Text) where
  assistant_content_chars : AssistantContent H → ℕ
  assistant_content_chars (AssistantContent.text t) = length t.text
  assistant_content_chars (AssistantContent.thinking t) = length t.thinking
  assistant_content_chars (AssistantContent.tool_call c) =
      length c.name + length (safe_json_stringify to_string c.arguments)

  unfoldable pub estimate_message_chars : Message H → ℕ
  unfolding assistant_content_chars user_value_chars
  estimate_message_chars (Message.user m) = user_value_chars m.content
  estimate_message_chars (Message.assistant m) = sum (map assistant_content_chars m.content)
  estimate_message_chars (Message.tool_result m) = sum (map tool_result_chars m.content)

  unfoldable pub estimate_message_tokens : Message H → ℕ
  estimate_message_tokens m = quarter (estimate_message_chars m)

  unfoldable pub estimate_session_message_chars : SessionMessage H → ℕ
  unfolding custom_chars
  estimate_session_message_chars (SessionMessage.llm m) = estimate_message_chars m
  estimate_session_message_chars (SessionMessage.bash_execution m) =
      length m.command + length m.output
  estimate_session_message_chars (SessionMessage.custom custom_type content display details t) =
      custom_chars content
  estimate_session_message_chars (SessionMessage.branch_summary summary from_id t) = length summary
  estimate_session_message_chars (SessionMessage.compaction_summary summary tokens t) =
      length summary

  unfoldable pub estimate_session_message_tokens : SessionMessage H → ℕ
  estimate_session_message_tokens m = quarter (estimate_session_message_chars m)

  unfoldable pub estimate_entry_message_tokens : SessionEntryMessage H → ℕ
  estimate_entry_message_tokens (SessionEntryMessage.llm m) = estimate_message_tokens m
  estimate_entry_message_tokens (SessionEntryMessage.bash_execution m) =
      quarter (length m.command + length m.output)

  unfoldable pub estimate_context_tokens : List (Message H) → ℕ
  estimate_context_tokens ms = sum (map estimate_message_tokens ms)

  unfoldable pub estimate_session_context_tokens : List (SessionMessage H) → ℕ
  estimate_session_context_tokens ms = sum (map estimate_session_message_tokens ms)
