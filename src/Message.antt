-- ===== src/Message.antt =====
-- The conversation messages of crates/ri-llm-provider/src/types.rs.
-- `Host` stands for what the program takes from elsewhere and never looks into here: the JSON
-- values of `serde_json`, and the floating-point numbers.
use ri.Base.{ℕ, Bool, Option, List, Text, none, ◌+◌, ltb, if◌then◌else◌}
use ri.Base.Int.{ℤ}
use ri.Base.Maps.{TextMap}

pub record Host : Type 1 where
  pub Value : Type 0
  pub Float : Type 0
  pub float_zero : Float

pub record UsageCost (H : Host) : Type 0 where
  pub input : H.Float
  pub output : H.Float
  pub cache_read : H.Float
  pub cache_write : H.Float
  pub total : H.Float

-- The counters are `u64`.
pub record Usage (H : Host) : Type 0 where
  pub input : ℕ
  pub output : ℕ
  pub cache_read : ℕ
  pub cache_write : ℕ
  pub cache_write_1h : Option ℕ
  pub reasoning : Option ℕ
  pub total_tokens : ℕ
  pub cost : UsageCost H

abbrev pub usage_zero : {H : Host} → Usage H
usage_zero {H} = record {
  input = 0;
  output = 0;
  cache_read = 0;
  cache_write = 0;
  cache_write_1h = none;
  reasoning = none;
  total_tokens = 0;
  cost = record {
    input = H.float_zero;
    output = H.float_zero;
    cache_read = H.float_zero;
    cache_write = H.float_zero;
    total = H.float_zero;
  };
}

pub data StopReason : Type 0 where
  stop length tool_use error aborted : StopReason

pub record TextContent : Type 0 where
  pub text : Text
  pub text_signature : Option Text

pub record ThinkingContent : Type 0 where
  pub thinking : Text
  pub thinking_signature : Option Text
  pub redacted : Bool

-- `data` of the source is `image_data` here: the word is reserved.
pub record ImageContent : Type 0 where
  pub image_data : Text
  pub mime_type : Text

pub record ToolCall (H : Host) : Type 0 where
  pub id : Text
  pub name : Text
  pub arguments : TextMap H.Value
  pub thought_signature : Option Text

pub data UserContent : Type 0 where
  text : TextContent → UserContent
  image : ImageContent → UserContent

pub data UserContentValue : Type 0 where
  plain : Text → UserContentValue
  blocks : List UserContent → UserContentValue

pub data AssistantContent (H : Host) : Type 0 where
  text : TextContent → AssistantContent H
  thinking : ThinkingContent → AssistantContent H
  tool_call : ToolCall H → AssistantContent H

pub data ToolResultContent : Type 0 where
  text : TextContent → ToolResultContent
  image : ImageContent → ToolResultContent

pub record UserMessage : Type 0 where
  pub content : UserContentValue
  pub timestamp : ℤ

pub record AssistantMessage (H : Host) : Type 0 where
  pub content : List (AssistantContent H)
  pub api : Text
  pub provider : Text
  pub model : Text
  pub response_model : Option Text
  pub response_id : Option Text
  pub diagnostics : List H.Value
  pub usage : Usage H
  pub stop_reason : StopReason
  pub error_message : Option Text
  pub timestamp : ℤ

pub record ToolResultMessage (H : Host) : Type 0 where
  pub tool_call_id : Text
  pub tool_name : Text
  pub content : List ToolResultContent
  pub details : Option H.Value
  pub usage : Option (Usage H)
  pub is_error : Bool
  pub added_tool_names : Option (List Text)
  pub timestamp : ℤ

pub data Message (H : Host) : Type 0 where
  user : UserMessage → Message H
  assistant : AssistantMessage H → Message H
  tool_result : ToolResultMessage H → Message H

abbrev pub u64_max : ℕ
u64_max = 18446744073709551615

-- `u64::saturating_add`.
abbrev pub saturating_add : ℕ → ℕ → ℕ
saturating_add a b = if ltb u64_max (a + b) then u64_max else a + b

module _ {H : Host} where
  unfoldable pub component_total : Usage H → ℕ
  component_total u =
      saturating_add (saturating_add (saturating_add u.input u.output) u.cache_read) u.cache_write
