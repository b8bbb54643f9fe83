-- ===== src/MessageTransform/Synthetic.antt =====
-- Results for tool calls that have none: `insert_synthetic_tool_results` of
-- crates/ri-llm-provider/src/message_transform.rs.
use ri.Base.{
  ℕ, Bool, true, false, Option, none, some, List, [], ◌∷◌, ◌++◌, Text, codes, length, filter_map,
  if◌then◌else◌,
}
use ri.Base.Int.{ℤ}
use ri.Base.Sets.{contains, set_insert}
use ri.Message.{
  Host, Message, AssistantMessage, AssistantContent, ToolCall, ToolResultContent, ToolResultMessage,
  StopReason,
}
use ri.MessageTransform.Images.{plain_text}

abbrev pub no_result : Text
no_result = codes "No result provided"

unfoldable pub is_failed : StopReason → Bool
is_failed StopReason.error = true
is_failed StopReason.aborted = true
is_failed _ = false

module _ {H : Host} where
  abbrev call_of : AssistantContent H → Option (ToolCall H)
  call_of (AssistantContent.tool_call call) = some call
  call_of _ = none

  unfoldable pub calls_of : AssistantMessage H → List (ToolCall H)
  calls_of m = filter_map call_of m.content

  unfoldable pub synthetic_result : ℤ → ToolCall H → ToolResultMessage H
  synthetic_result now call = record {
    tool_call_id = call.id;
    tool_name = call.name;
    content = ToolResultContent.text (plain_text no_result) ∷ [];
    details = none;
    usage = none;
    is_error = true;
    added_tool_names = none;
    timestamp = now;
  }

-- `clock` is the time at which the message of a place is written.
module _ {H : Host} (clock : ℕ → ℤ) where
  unfoldable pub insert_missing_tool_results :
      List (Message H) → List (ToolCall H) → List Text → List (Message H)
  unfolding synthetic_result contains
  insert_missing_tool_results result [] existing = result
  insert_missing_tool_results result (call ∷ calls) existing =
      insert_missing_tool_results
        (if contains existing call.id
          then result
          else result ++ Message.tool_result (synthetic_result (clock (length result)) call) ∷ [])
        calls existing

  -- The loop, with the result, the pending calls and the ids of the results that are there.
  unfoldable pub synthetic_loop :
      List (Message H) → List (ToolCall H) → List Text → List (Message H) → List (Message H)
  unfolding insert_missing_tool_results is_failed calls_of set_insert
  synthetic_loop result pending existing [] = insert_missing_tool_results result pending existing
  synthetic_loop result pending existing (Message.assistant m ∷ ms) =
      let flushed = insert_missing_tool_results result pending existing in
      let failed = is_failed m.stop_reason in
      synthetic_loop (if failed then flushed else flushed ++ Message.assistant m ∷ [])
        (if failed then [] else calls_of m) [] ms
  synthetic_loop result pending existing (Message.tool_result m ∷ ms) =
      synthetic_loop (result ++ Message.tool_result m ∷ []) pending
        (set_insert existing m.tool_call_id) ms
  synthetic_loop result pending existing (Message.user m ∷ ms) =
      synthetic_loop (insert_missing_tool_results result pending existing ++ Message.user m ∷ []) []
        [] ms

  unfoldable pub insert_synthetic_tool_results : List (Message H) → List (Message H)
  unfolding synthetic_loop
  insert_synthetic_tool_results ms = synthetic_loop [] [] [] ms
