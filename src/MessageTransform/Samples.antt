-- ===== src/MessageTransform/Samples.antt =====
-- The transformation of messages at concrete inputs: tests of the definitions, and uses of the
-- theorems.
use ri.Base.{
  ℕ, ◌≡◌, refl, true, false, Option, none, some, List, [], ◌∷◌, codes, Text, length, any, take,
}
use ri.Base.Int.{ℤ, pos}
use ri.Message.{
  Host, Message, UserContent, UserContentValue, StopReason, usage_zero, AssistantContent,
}
use ri.Agent.Types.{Model}
use ri.MessageTransform.Images.{has_image, takes_images, downgrade_unsupported_images}
use ri.MessageTransform.Assistant.{ToolCallIdNormalizer, transform_each}
use ri.MessageTransform.Synthetic.{insert_synthetic_tool_results}
use ri.MessageTransform.Whole.{transform_messages}
use ri.MessageTransform.Answered.{waits, transform_messages-waits}
use ri.MessageTransform.Complete.{insert_synthetic_complete}
use ri.MessageTransform.NoImages.{transform_messages-has_image}

abbrev plain : Host
plain = record { Value = ℕ; Float = ℕ; float_zero = 0 }

abbrev model : Model plain
model = record {
  id = codes "m";
  name = codes "M";
  api = codes "a";
  provider = codes "p";
  base_url = [];
  reasoning = false;
  thinking_level_map = [];
  input = [];
  cost = record { input = 0; output = 0; cache_read = 0; cache_write = 0; tiers = [] };
  context_window = 1000;
  max_tokens = 100;
  headers = [];
  compat = none;
}

abbrev says : List (AssistantContent plain) → StopReason → Message plain
says content reason = Message.assistant (record {
  content = content;
  api = codes "a";
  provider = codes "other";
  model = codes "m";
  response_model = none;
  response_id = none;
  diagnostics = [];
  usage = usage_zero;
  stop_reason = reason;
  error_message = none;
  timestamp = pos 0;
})

abbrev asks : Text → AssistantContent plain
asks id =
    AssistantContent.tool_call
      (record { id = id; name = codes "echo"; arguments = []; thought_signature = none })

abbrev picture : UserContent
picture = UserContent.image (record { image_data = codes "x"; mime_type = codes "image/png" })

abbrev shows : Message plain
shows =
    Message.user
      (record { content = UserContentValue.blocks (picture ∷ picture ∷ []); timestamp = pos 1 })

abbrev answers : Text → Message plain
answers id = Message.tool_result (record {
  tool_call_id = id;
  tool_name = codes "echo";
  content = [];
  details = none;
  usage = none;
  is_error = false;
  added_tool_names = none;
  timestamp = pos 2;
})

-- Two calls of which the second is answered, a picture, a message that failed, and one more call.
abbrev broken : List (Message plain)
broken =
    says (asks (codes "1") ∷ asks (codes "2") ∷ []) StopReason.tool_use
    ∷ answers (codes "2")
    ∷ shows
    ∷ says (asks (codes "3") ∷ []) StopReason.error
    ∷ says (asks (codes "4") ∷ []) StopReason.tool_use
    ∷ []

abbrev marked : ToolCallIdNormalizer plain
marked id m message = 120 ∷ id

abbrev clock : ℕ → ℤ
clock n = pos n

abbrev mended : List (Message plain)
mended = transform_messages clock broken model (some marked)

mended-length : length mended ≡ 6
unfolding transform_messages insert_synthetic_tool_results transform_each
    downgrade_unsupported_images takes_images ri.Base.text_eq ri.Base.Maps.insert
mended-length = refl

transform_messages-waits_example : waits (some []) mended ≡ some []
transform_messages-waits_example = transform_messages-waits clock broken model (some marked)

transform_messages-has_image_example : any has_image mended ≡ false
unfolding takes_images
transform_messages-has_image_example =
    transform_messages-has_image clock broken model (some marked) refl

insert_synthetic_complete_example : insert_synthetic_tool_results clock mended ≡ mended
insert_synthetic_complete_example =
    insert_synthetic_complete clock mended
      (transform_messages-waits clock broken model (some marked))
