-- ===== src/MessageTransform/NoImages.antt =====
-- A model that takes no images gets none, by `transform_messages` of
-- crates/ri-llm-provider/src/message_transform.rs.
use ri.Base.{
  ℕ, ◌≡◌, refl, ◌∙◌, Bool, true, false, Option, List, [], ◌∷◌, ◌++◌, Text, length, any, arith,
  if◌then◌else◌,
}
use ri.Base.Lists.{any-append}
use ri.Base.Int.{ℤ}
use ri.Base.Sets.{contains, set_insert}
use ri.Base.Maps.{TextMap}
use ri.Message.{Host, Message, ToolCall}
use ri.Agent.Types.{Model}
use ri.MessageTransform.Images.{
  has_image, takes_images, downgrade_unsupported_images, downgrade_unsupported-has_image,
}
use ri.MessageTransform.Assistant.{ToolCallIdNormalizer, transform_each, transform_one}
use ri.MessageTransform.Synthetic.{
  calls_of, is_failed, synthetic_result, insert_missing_tool_results, synthetic_loop,
  insert_synthetic_tool_results,
}
use ri.MessageTransform.Whole.{transform_messages}

module _ {H : Host} where
  abbrev NoImage : List (Message H) → Type 0
  NoImage ms = any has_image ms ≡ false

  NoImage-snoc :
      (ms : List (Message H)) (m : Message H)
      → NoImage ms
      → has_image m ≡ false
      → NoImage (ms ++ m ∷ [])
  NoImage-snoc ms m h h' = ground (arith, any-append has_image ms (m ∷ []), h, h')

  transform_one-has_image :
      (model : Model H) (normalizer : Option (ToolCallIdNormalizer H)) (m : Message H)
      (ids : TextMap Text)
      → has_image ((transform_one model normalizer m ids).0) ≡ has_image m
  unfolding has_image transform_one
  transform_one-has_image model normalizer (Message.user m) ids = refl
  transform_one-has_image model normalizer (Message.assistant m) ids = refl
  transform_one-has_image model normalizer (Message.tool_result m) ids = refl

  transform_each-has_image :
      (model : Model H) (normalizer : Option (ToolCallIdNormalizer H)) (ms : List (Message H))
      (ids : TextMap Text)
      → any has_image (transform_each model normalizer ms ids) ≡ any has_image ms
  unfolding transform_each
  transform_each-has_image model normalizer [] ids = refl
  transform_each-has_image model normalizer (m ∷ ms) ids = ground (
    arith,
    transform_one-has_image model normalizer m ids,
    transform_each-has_image model normalizer ms ((transform_one model normalizer m ids).1),
  )

module _ {H : Host} (clock : ℕ → ℤ) where
  insert_missing-NoImage :
      (calls : List (ToolCall H)) (existing : List Text) (result : List (Message H))
      → NoImage result
      → NoImage (insert_missing_tool_results clock result calls existing)
  unfolding insert_missing_tool_results synthetic_result has_image
  insert_missing-NoImage [] existing result h = h
  insert_missing-NoImage (call ∷ calls) existing result h =
      insert_missing-NoImage calls existing
        (if contains existing call.id then result else result ++ new ∷ [])
        (by_found (contains existing call.id))
    where
      new : Message H
      new = Message.tool_result (synthetic_result (clock (length result)) call)

      by_found : (b : Bool) → NoImage (if b then result else result ++ new ∷ [])
      by_found true = h
      by_found false = NoImage-snoc result new h refl

  synthetic_loop-NoImage :
      (ms result : List (Message H)) (pending : List (ToolCall H)) (existing : List Text)
      → NoImage result
      → NoImage ms
      → NoImage (synthetic_loop clock result pending existing ms)
  unfolding synthetic_loop
  synthetic_loop-NoImage [] result pending existing h n =
      insert_missing-NoImage pending existing result h
  synthetic_loop-NoImage (Message.user m ∷ ms) result pending existing h n =
      synthetic_loop-NoImage ms
        (insert_missing_tool_results clock result pending existing ++ Message.user m ∷ []) [] []
        (NoImage-snoc (insert_missing_tool_results clock result pending existing) (Message.user m)
          (insert_missing-NoImage pending existing result h) (ground (arith, n)))
        (ground (arith, n))
  synthetic_loop-NoImage (Message.tool_result m ∷ ms) result pending existing h n =
      synthetic_loop-NoImage ms (result ++ Message.tool_result m ∷ []) pending
        (set_insert existing m.tool_call_id)
        (NoImage-snoc result (Message.tool_result m) h (ground (arith, n))) (ground (arith, n))
  synthetic_loop-NoImage (Message.assistant m ∷ ms) result pending existing h n =
      synthetic_loop-NoImage ms
        (if is_failed m.stop_reason then flushed else flushed ++ Message.assistant m ∷ [])
        (if is_failed m.stop_reason then [] else calls_of m) []
        (by_failed (is_failed m.stop_reason)) (ground (arith, n))
    where
      flushed : List (Message H)
      flushed = insert_missing_tool_results clock result pending existing

      by_failed : (b : Bool) → NoImage (if b then flushed else flushed ++ Message.assistant m ∷ [])
      by_failed true = insert_missing-NoImage pending existing result h
      by_failed false =
          NoImage-snoc flushed (Message.assistant m)
            (insert_missing-NoImage pending existing result h) (ground (arith, n))

  -- Where the kinds of input of the model do not name images, no message that it gets holds one.
  pub transform_messages-has_image :
      (ms : List (Message H)) (model : Model H) (normalizer : Option (ToolCallIdNormalizer H))
      → takes_images model ≡ false
      → any has_image (transform_messages clock ms model normalizer) ≡ false
  unfolding transform_messages insert_synthetic_tool_results
  transform_messages-has_image ms model normalizer h =
      synthetic_loop-NoImage
        (transform_each model normalizer (downgrade_unsupported_images ms model) []) [] [] [] refl
        (transform_each-has_image model normalizer (downgrade_unsupported_images ms model) []
          ∙ downgrade_unsupported-has_image ms model h)
