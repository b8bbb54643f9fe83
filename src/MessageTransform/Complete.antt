-- ===== src/MessageTransform/Complete.antt =====
-- A conversation that is complete is left as it is, by `insert_synthetic_tool_results` of
-- crates/ri-llm-provider/src/message_transform.rs.
use ri.Base.{
  ℕ, ◌≡◌, refl, sym, ◌∙◌, Bool, true, false, not, ◌||◌, none, some, List, [], ◌∷◌, ◌++◌, Text,
  text_eq, text_eq_iff, text_eq_refl, retain, All, arith, if◌then◌else◌,
}
use mathlib.Core.List.{append_assoc, append-nil}
use ri.Base.Int.{ℤ}
use ri.Base.Sets.{contains, set_insert, contains-set_insert}
use ri.Message.{Host, Message, ToolCall}
use ri.MessageTransform.Synthetic.{
  calls_of, is_failed, insert_missing_tool_results, synthetic_loop, insert_synthetic_tool_results,
}
use ri.MessageTransform.Covers.{ids_of}
use ri.MessageTransform.Answered.{waits}

-- An id that has a result is among the results, or it waits.
abbrev seen : List Text → List Text → Text → Bool
seen existing w id = contains existing id || contains w id

contains-retain :
    (w : List Text) (new id : Text)
    → text_eq new id ≡ false
    → contains (retain (λ i. not (text_eq new i)) w) id ≡ contains w id
unfolding contains
contains-retain [] new id e = refl
contains-retain (i ∷ w) new id e =
    ground
      (arith, contains-retain w new id e, text_eq_iff i id, text_eq_iff new i, text_eq_iff new id)

seen-insert :
    (existing w : List Text) (new id : Text)
    → seen existing w id ≡ true
    → seen (set_insert existing new) (retain (λ i. not (text_eq new i)) w) id ≡ true
seen-insert existing w new id h =
    ground (arith, contains-retain w new id, contains-set_insert existing new id, h)

module _ {H : Host} where
  abbrev Seen : List (ToolCall H) → List Text → List Text → Type 0
  Seen calls existing w = All (λ (c : ToolCall H). seen existing w c.id ≡ true) calls

  Seen-insert :
      (calls : List (ToolCall H)) (existing w : List Text) (new : Text)
      → Seen calls existing w
      → Seen calls (set_insert existing new) (retain (λ i. not (text_eq new i)) w)
  Seen-insert [] existing w new h = tt
  Seen-insert (c ∷ calls) existing w new (h, hs) =
      (seen-insert existing w new c.id h, Seen-insert calls existing w new hs)

  Seen-more :
      (call : Text) (calls : List (ToolCall H)) (w : List Text)
      → Seen calls [] w
      → Seen calls [] (call ∷ w)
  unfolding contains
  Seen-more call [] w h = tt
  Seen-more call (c ∷ calls) w (h, hs) = (ground (arith, h), Seen-more call calls w hs)

  Seen-all : (calls : List (ToolCall H)) → Seen calls [] (ids_of calls)
  unfolding contains
  Seen-all [] = tt
  Seen-all (c ∷ calls) =
      (ground (arith, text_eq_refl c.id), Seen-more c.id calls (ids_of calls) (Seen-all calls))

module _ {H : Host} (clock : ℕ → ℤ) where
  insert_missing-Seen :
      (calls : List (ToolCall H)) (existing : List Text) (result : List (Message H))
      → Seen calls existing []
      → insert_missing_tool_results clock result calls existing ≡ result
  unfolding insert_missing_tool_results contains
  insert_missing-Seen [] existing result h = refl
  insert_missing-Seen (call ∷ calls) existing result (h, hs) =
      let found : contains existing call.id ≡ true = ground (arith, h) in
      rw found (insert_missing-Seen calls existing result hs)

  synthetic_loop_complete :
      (ms result : List (Message H)) (pending : List (ToolCall H)) (existing w : List Text)
      → Seen pending existing w
      → waits (some w) ms ≡ some []
      → synthetic_loop clock result pending existing ms ≡ result ++ ms
  unfolding synthetic_loop
  synthetic_loop_complete [] result pending existing [] c h =
      insert_missing-Seen pending existing result c ∙ sym (append-nil result)
  synthetic_loop_complete [] result pending existing (id ∷ w) c h = cc h
  synthetic_loop_complete (Message.tool_result m ∷ ms) result pending existing w c h =
      synthetic_loop_complete ms (result ++ Message.tool_result m ∷ []) pending
        (set_insert existing m.tool_call_id) (retain (λ id. not (text_eq m.tool_call_id id)) w)
        (Seen-insert pending existing w m.tool_call_id c) h
      ∙ append_assoc result (Message.tool_result m ∷ []) ms
  synthetic_loop_complete (Message.user m ∷ ms) result pending existing (id ∷ w) c h = cc h
  synthetic_loop_complete (Message.user m ∷ ms) result pending existing [] c h =
      rw (insert_missing-Seen pending existing result c) (
        synthetic_loop_complete ms (result ++ Message.user m ∷ []) [] [] [] tt h
        ∙ append_assoc result (Message.user m ∷ []) ms)
  synthetic_loop_complete (Message.assistant m ∷ ms) result pending existing (id ∷ w) c h = cc h
  synthetic_loop_complete (Message.assistant m ∷ ms) result pending existing [] c h =
      by_failed (is_failed m.stop_reason)
        (λ h'. rw (insert_missing-Seen pending existing result c) (
          synthetic_loop_complete ms (result ++ Message.assistant m ∷ []) (calls_of m) []
            (ids_of (calls_of m)) (Seen-all (calls_of m)) h'
          ∙ append_assoc result (Message.assistant m ∷ []) ms))
        h
    where
      flushed : List (Message H)
      flushed = insert_missing_tool_results clock result pending existing

      by_failed :
          (b : Bool)
          → (waits (some (ids_of (calls_of m))) ms ≡ some []
              → synthetic_loop clock (flushed ++ Message.assistant m ∷ []) (calls_of m) [] ms
                ≡ result ++ Message.assistant m ∷ ms)
          → waits (if b then none else some (ids_of (calls_of m))) ms ≡ some []
          → synthetic_loop clock
              (if b then flushed else flushed ++ Message.assistant m ∷ [])
              (if b then [] else calls_of m)
              []
              ms
            ≡ result ++ Message.assistant m ∷ ms
      by_failed true other h = cc h
      by_failed false other h = other h

  -- A conversation in which every tool call is answered and nothing has failed is left as it is.
  pub insert_synthetic_complete :
      (ms : List (Message H))
      → waits (some []) ms ≡ some []
      → insert_synthetic_tool_results clock ms ≡ ms
  unfolding insert_synthetic_tool_results
  insert_synthetic_complete ms h = synthetic_loop_complete ms [] [] [] [] tt h
