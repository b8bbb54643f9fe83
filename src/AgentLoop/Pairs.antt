-- ===== src/AgentLoop/Pairs.antt =====
-- Which tool calls the events of the loop of crates/ri-agent-core/src/agent_loop.rs have started and
-- not yet ended.
pub mod Tools
pub mod Turn
pub mod Loop
use ri.Base.{
  ◌≡◌, refl, sym, ap, ◌∙◌, Bool, true, false, ◌||◌, Option, none, some, List, [], ◌∷◌, ◌++◌, Text,
  text_eq, filter_map, filter_map-append, last, latest, or_else, or_else-last, arith, if◌then◌else◌,
  cons_some,
}
use ri.Message.{Host}
use ri.Agent.Types.{AgentMessage, AgentEvent, AgentToolResult}
use ri.Agent.Reduce.{runs}
use ri.AgentLoop.Types.{AgentLoopConfig, LoopState}
use ri.AgentLoop.Record.{
  deliver, record_event, push_message, push_all, record_tool_result_message_events,
  record_injected_messages,
}

or_else-append :
    (os : List Bool) (o : Option Bool) (d : Bool)
    → or_else d (last (os ++ cons_some o [])) ≡ or_else (or_else d (last os)) o
or_else-append [] none d = refl
or_else-append [] (some b) d = refl
or_else-append (x ∷ []) none d = refl
or_else-append (x ∷ []) (some b) d = refl
or_else-append (x ∷ (y ∷ os)) o d = or_else-append (y ∷ os) o d

module _ {H : Host} where
  -- Whether the last of the events about the call `k` is its start.
  abbrev pub is_open : Text → List (AgentEvent H) → Bool
  is_open k es = or_else false (last (filter_map (runs k) es))

  is_open-append :
      (k : Text) (es : List (AgentEvent H)) (e : AgentEvent H)
      → is_open k (es ++ e ∷ []) ≡ or_else (is_open k es) (runs k e)
  is_open-append k es e =
      ap (λ (l : List Bool). or_else false (last l)) (filter_map-append (runs k) es (e ∷ []))
      ∙ or_else-append (filter_map (runs k) es) (runs k e) false

module _ {H : Host} {W : Type 0} where
  -- The calls that are open are among those of `p`.
  abbrev pub OpenIn : (Text → Bool) → LoopState H W → Type 0
  OpenIn p s = (k : Text) → is_open k s.history ≡ true → p k ≡ true

module _ {H : Host} {W S : Type 0} (config : AgentLoopConfig H W S) where
  is_open-record :
      (k : Text) (e : AgentEvent H) (s : LoopState H W)
      → is_open k (record_event config e s).history ≡ or_else (is_open k s.history) (runs k e)
  unfolding record_event deliver
  is_open-record k e s =
      let same : (record_event config e s).history ≡ s.history ++ e ∷ [] = ground arith in
      ap (is_open k) same ∙ is_open-append k s.history e

  -- An event that is about no call.
  pub OpenIn-quiet :
      (p : Text → Bool) (e : AgentEvent H) (s : LoopState H W)
      → ((k : Text) → runs k e ≡ none)
      → OpenIn p s
      → OpenIn p (record_event config e s)
  OpenIn-quiet p e s h o k opened = o k (ground (arith, opened, is_open-record k e s, h k))

  pub OpenIn-update :
      (p : Text → Bool) (id name : Text) (args : H.Value) (r : AgentToolResult H)
      (s : LoopState H W)
      → OpenIn p s
      → OpenIn p (deliver config (AgentEvent.tool_execution_update id name args r) s)
  unfolding deliver
  OpenIn-update p id name args r s o k opened = o k (
      ground (
        arith,
        opened,
        is_open-append k s.history (AgentEvent.tool_execution_update id name args r),
      ))

  pub OpenIn-start :
      (p : Text → Bool) (id name : Text) (args : H.Value) (s : LoopState H W)
      → OpenIn p s
      → OpenIn
          (λ k. text_eq id k || p k)
          (record_event config (AgentEvent.tool_execution_start id name args) s)
  OpenIn-start p id name args s o k opened =
      ground (arith, opened, o k, is_open-record k (AgentEvent.tool_execution_start id name args) s)

  pub OpenIn-end :
      (p : Text → Bool) (id name : Text) (r : AgentToolResult H) (b : Bool) (s : LoopState H W)
      → OpenIn (λ k. text_eq id k || p k) s
      → OpenIn p (record_event config (AgentEvent.tool_execution_end id name r b) s)
  OpenIn-end p id name r b s o k opened =
      ground (arith, opened, o k, is_open-record k (AgentEvent.tool_execution_end id name r b) s)

  pub OpenIn-announce :
      (p : Text → Bool) (m : AgentMessage H) (s : LoopState H W)
      → OpenIn p s
      → OpenIn p (record_tool_result_message_events config m s)
  unfolding record_tool_result_message_events
  OpenIn-announce p m s o =
      OpenIn-quiet p (AgentEvent.message_end m) _ (λ k. refl)
        (OpenIn-quiet p (AgentEvent.message_start m) s (λ k. refl) o)
