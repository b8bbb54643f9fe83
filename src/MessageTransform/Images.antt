-- ===== src/MessageTransform/Images.antt =====
-- The images that a model does not take, replaced by a text:
-- `downgrade_unsupported_images` of crates/ri-llm-provider/src/message_transform.rs.
use ri.Base.{
  ◌≡◌, refl, Bool, true, false, none, List, [], ◌∷◌, Text, codes, text_eq, map, any, arith,
  if◌then◌else◌,
}
use ri.Message.{Host, Message, UserContent, UserContentValue, ToolResultContent, TextContent}
use ri.Agent.Types.{Model, InputKind}

abbrev pub non_vision_user_image_placeholder : Text
non_vision_user_image_placeholder = codes "(image omitted: model does not support images)"

abbrev pub non_vision_tool_image_placeholder : Text
non_vision_tool_image_placeholder = codes "(tool image omitted: model does not support images)"

abbrev pub plain_text : Text → TextContent
plain_text t = record { text = t; text_signature = none }

-- One placeholder stands for images that follow one another or a text that is the placeholder.
user_blocks : Text → Bool → List UserContent → List UserContent
user_blocks placeholder previous [] = []
user_blocks placeholder previous (UserContent.image i ∷ blocks) =
    let rest = user_blocks placeholder true blocks in
    if previous then rest else UserContent.text (plain_text placeholder) ∷ rest
user_blocks placeholder previous (UserContent.text t ∷ blocks) =
    UserContent.text t ∷ user_blocks placeholder (text_eq t.text placeholder) blocks

unfoldable pub replace_user_images_with_placeholder : List UserContent → Text → List UserContent
unfolding user_blocks
replace_user_images_with_placeholder blocks placeholder = user_blocks placeholder false blocks

tool_blocks : Text → Bool → List ToolResultContent → List ToolResultContent
tool_blocks placeholder previous [] = []
tool_blocks placeholder previous (ToolResultContent.image i ∷ blocks) =
    let rest = tool_blocks placeholder true blocks in
    if previous then rest else ToolResultContent.text (plain_text placeholder) ∷ rest
tool_blocks placeholder previous (ToolResultContent.text t ∷ blocks) =
    ToolResultContent.text t ∷ tool_blocks placeholder (text_eq t.text placeholder) blocks

unfoldable pub replace_tool_images_with_placeholder :
    List ToolResultContent → Text → List ToolResultContent
unfolding tool_blocks
replace_tool_images_with_placeholder blocks placeholder = tool_blocks placeholder false blocks

is_image : InputKind → Bool
is_image InputKind.image = true
is_image InputKind.text = false

downgrade_content : UserContentValue → UserContentValue
unfolding replace_user_images_with_placeholder
downgrade_content (UserContentValue.plain t) = UserContentValue.plain t
downgrade_content (UserContentValue.blocks blocks) =
    UserContentValue.blocks
      (replace_user_images_with_placeholder blocks non_vision_user_image_placeholder)

abbrev pub user_image : UserContent → Bool
user_image (UserContent.image i) = true
user_image (UserContent.text t) = false

abbrev pub tool_image : ToolResultContent → Bool
tool_image (ToolResultContent.image i) = true
tool_image (ToolResultContent.text t) = false

content_image : UserContentValue → Bool
content_image (UserContentValue.plain t) = false
content_image (UserContentValue.blocks blocks) = any user_image blocks

user_blocks-image :
    (placeholder : Text) (previous : Bool) (blocks : List UserContent)
    → any user_image (user_blocks placeholder previous blocks) ≡ false
unfolding user_blocks
user_blocks-image placeholder previous [] = refl
user_blocks-image placeholder true (UserContent.image i ∷ blocks) =
    user_blocks-image placeholder true blocks
user_blocks-image placeholder false (UserContent.image i ∷ blocks) =
    user_blocks-image placeholder true blocks
user_blocks-image placeholder previous (UserContent.text t ∷ blocks) =
    user_blocks-image placeholder (text_eq t.text placeholder) blocks

tool_blocks-image :
    (placeholder : Text) (previous : Bool) (blocks : List ToolResultContent)
    → any tool_image (tool_blocks placeholder previous blocks) ≡ false
unfolding tool_blocks
tool_blocks-image placeholder previous [] = refl
tool_blocks-image placeholder true (ToolResultContent.image i ∷ blocks) =
    tool_blocks-image placeholder true blocks
tool_blocks-image placeholder false (ToolResultContent.image i ∷ blocks) =
    tool_blocks-image placeholder true blocks
tool_blocks-image placeholder previous (ToolResultContent.text t ∷ blocks) =
    tool_blocks-image placeholder (text_eq t.text placeholder) blocks

module _ {H : Host} where
  unfoldable pub takes_images : Model H → Bool
  unfolding is_image
  takes_images model = any is_image model.input

  downgrade : Message H → Message H
  unfolding downgrade_content replace_tool_images_with_placeholder
  downgrade (Message.user m) = Message.user (record m { content = downgrade_content m.content })
  downgrade (Message.assistant m) = Message.assistant m
  downgrade (Message.tool_result m) = Message.tool_result (record m {
    content = replace_tool_images_with_placeholder m.content non_vision_tool_image_placeholder;
  })

  unfoldable pub downgrade_unsupported_images : List (Message H) → Model H → List (Message H)
  unfolding downgrade
  downgrade_unsupported_images ms model = if takes_images model then ms else map downgrade ms

  -- Whether a message holds an image.
  unfoldable pub has_image : Message H → Bool
  unfolding content_image
  has_image (Message.user m) = content_image m.content
  has_image (Message.assistant m) = false
  has_image (Message.tool_result m) = any tool_image m.content

  downgrade-has_image : (m : Message H) → has_image (downgrade m) ≡ false
  unfolding has_image downgrade
  downgrade-has_image (Message.user m) = by_content m.content
    where
      by_content : (c : UserContentValue) → content_image (downgrade_content c) ≡ false
      by_content (UserContentValue.plain t) = refl
      by_content (UserContentValue.blocks blocks) =
          user_blocks-image non_vision_user_image_placeholder false blocks
  downgrade-has_image (Message.assistant m) = refl
  downgrade-has_image (Message.tool_result m) =
      tool_blocks-image non_vision_tool_image_placeholder false m.content

  any-downgrade : (ms : List (Message H)) → any has_image (map downgrade ms) ≡ false
  any-downgrade [] = refl
  any-downgrade (m ∷ ms) = ground (arith, downgrade-has_image m, any-downgrade ms)

  pub downgrade_unsupported-has_image :
      (ms : List (Message H)) (model : Model H)
      → takes_images model ≡ false
      → any has_image (downgrade_unsupported_images ms model) ≡ false
  unfolding downgrade_unsupported_images
  downgrade_unsupported-has_image ms model h = rw h (any-downgrade ms)
