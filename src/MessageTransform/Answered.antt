-- ===== src/MessageTransform/Answered.antt =====
-- Every tool call of a transformed conversation is answered, by
-- crates/ri-llm-provider/src/message_transform.rs.
use ri.Base.{
  ℕ, ◌≡◌, refl, ap, ◌∙◌, Bool, true, false, not, Option, none, some, List, [], ◌∷◌, ◌++◌, Text,
  text_eq, length, retain, if◌then◌else◌,
}
use ri.Base.Int.{ℤ}
use ri.Base.Sets.{contains, set_insert}
use ri.Message.{Host, Message, ToolCall}
use ri.Agent.Types.{Model}
use ri.MessageTransform.Images.{downgrade_unsupported_images}
use ri.MessageTransform.Assistant.{ToolCallIdNormalizer, transform_each}
use ri.MessageTransform.Synthetic.{
  calls_of, is_failed, synthetic_result, insert_missing_tool_results, synthetic_loop,
  insert_synthetic_tool_results,
}
use ri.MessageTransform.Whole.{transform_messages}
use ri.MessageTransform.Covers.{
  ids_of, Covers, Covers-none, Covers-skip, Covers-answer, Covers-insert, Covers-all,
}

-- What is left where nothing may wait.
abbrev when_none : List Text → Option (List Text) → Option (List Text)
when_none [] after = after
when_none (id ∷ waiting) after = none

module _ {H : Host} where
  -- The calls that still wait for a result after one message; `none` where a message of the user or
  -- the assistant comes while a call waits, or where the message of the assistant has failed.
  abbrev pub waits_after : List Text → Message H → Option (List Text)
  waits_after waiting (Message.user m) = when_none waiting (some [])
  waits_after waiting (Message.assistant m) =
      when_none waiting (if is_failed m.stop_reason then none else some (ids_of (calls_of m)))
  waits_after waiting (Message.tool_result m) =
      some (retain (λ id. not (text_eq m.tool_call_id id)) waiting)

  -- The same after some messages.
  abbrev pub waits : Option (List Text) → List (Message H) → Option (List Text)
  waits none ms = none
  waits (some waiting) [] = some waiting
  waits (some waiting) (m ∷ ms) = waits (waits_after waiting m) ms

  waits-append :
      (o : Option (List Text)) (xs ys : List (Message H))
      → waits o (xs ++ ys) ≡ waits (waits o xs) ys
  waits-append none xs ys = refl
  waits-append (some w) [] ys = refl
  waits-append (some w) (x ∷ xs) ys = waits-append (waits_after w x) xs ys

  waits-snoc :
      (xs : List (Message H)) (m : Message H) (w : List Text)
      → waits (some []) xs ≡ some w
      → waits (some []) (xs ++ m ∷ []) ≡ waits_after w m
  waits-snoc xs m w h =
      waits-append (some []) xs (m ∷ [])
      ∙ ap (λ (o : Option (List Text)). waits o (m ∷ [])) h
      ∙ one (waits_after w m)
    where
      one : (o : Option (List Text)) → waits o [] ≡ o
      one none = refl
      one (some v) = refl

module _ {H : Host} (clock : ℕ → ℤ) where
  insert_missing-waits :
      (calls : List (ToolCall H)) (existing w : List Text) (result : List (Message H))
      → Covers calls existing w
      → waits (some []) result ≡ some w
      → waits (some []) (insert_missing_tool_results clock result calls existing) ≡ some []
  unfolding insert_missing_tool_results synthetic_result
  insert_missing-waits [] existing w result c h = h ∙ ap some (Covers-none H existing w c)
  insert_missing-waits (call ∷ calls) existing w result c h =
      by_found (contains existing call.id) refl
        (λ e.
          insert_missing-waits calls existing w result (Covers-skip call calls existing w e c) h)
        (insert_missing-waits calls existing (retain (λ id. not (text_eq call.id id)) w)
          (result ++ new ∷ []) (Covers-answer call calls existing w c) (waits-snoc result new w h))
    where
      new : Message H
      new = Message.tool_result (synthetic_result (clock (length result)) call)

      goal : List (Message H) → Type 0
      goal r = waits (some []) (insert_missing_tool_results clock r calls existing) ≡ some []

      by_found :
          (b : Bool)
          → contains existing call.id ≡ b
          → (contains existing call.id ≡ true → goal result)
          → goal (result ++ new ∷ [])
          → goal (if b then result else result ++ new ∷ [])
      by_found true e found other = found e
      by_found false e found other = other

  synthetic_loop-waits :
      (ms result : List (Message H)) (pending : List (ToolCall H)) (existing w : List Text)
      → Covers pending existing w
      → waits (some []) result ≡ some w
      → waits (some []) (synthetic_loop clock result pending existing ms) ≡ some []
  unfolding synthetic_loop
  synthetic_loop-waits [] result pending existing w c h =
      insert_missing-waits pending existing w result c h
  synthetic_loop-waits (Message.user m ∷ ms) result pending existing w c h =
      synthetic_loop-waits ms
        (insert_missing_tool_results clock result pending existing ++ Message.user m ∷ []) [] [] []
        tt
        (waits-snoc (insert_missing_tool_results clock result pending existing) (Message.user m) []
          (insert_missing-waits pending existing w result c h))
  synthetic_loop-waits (Message.tool_result m ∷ ms) result pending existing w c h =
      synthetic_loop-waits ms (result ++ Message.tool_result m ∷ []) pending
        (set_insert existing m.tool_call_id) (retain (λ id. not (text_eq m.tool_call_id id)) w)
        (Covers-insert pending existing m.tool_call_id w c)
        (waits-snoc result (Message.tool_result m) w h)
  synthetic_loop-waits (Message.assistant m ∷ ms) result pending existing w c h =
      by_failed (is_failed m.stop_reason) refl
        (synthetic_loop-waits ms flushed [] [] [] tt flushed-waits)
        (λ e.
          synthetic_loop-waits ms (flushed ++ Message.assistant m ∷ []) (calls_of m) []
            (ids_of (calls_of m)) (Covers-all (calls_of m))
            (waits-snoc flushed (Message.assistant m) [] flushed-waits ∙ rw e refl))
    where
      flushed : List (Message H)
      flushed = insert_missing_tool_results clock result pending existing

      flushed-waits : waits (some []) flushed ≡ some []
      flushed-waits = insert_missing-waits pending existing w result c h

      goal : List (Message H) → List (ToolCall H) → Type 0
      goal r p = waits (some []) (synthetic_loop clock r p [] ms) ≡ some []

      by_failed :
          (b : Bool)
          → is_failed m.stop_reason ≡ b
          → goal flushed []
          → (is_failed m.stop_reason ≡ false
              → goal (flushed ++ Message.assistant m ∷ []) (calls_of m))
          → goal
              (if b then flushed else flushed ++ Message.assistant m ∷ [])
              (if b then [] else calls_of m)
      by_failed true e failed other = failed
      by_failed false e failed other = other e

  -- In the conversation that a model gets, whatever the conversation was, every tool call has a
  -- result before the next message of the user or the assistant and before the end, and no message
  -- of the assistant has failed.
  pub transform_messages-waits :
      (ms : List (Message H)) (model : Model H) (normalizer : Option (ToolCallIdNormalizer H))
      → waits (some []) (transform_messages clock ms model normalizer) ≡ some []
  unfolding transform_messages insert_synthetic_tool_results
  transform_messages-waits ms model normalizer =
      synthetic_loop-waits
        (transform_each model normalizer (downgrade_unsupported_images ms model) []) [] [] [] [] tt
        refl
