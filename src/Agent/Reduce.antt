-- ===== src/Agent/Reduce.antt =====
-- `reduce_agent_state` of crates/ri-agent-core/src/agent.rs, and what a run of events makes of the
-- state.
use ri.Base.{
  ◌≡◌, refl, sym, ◌∙◌, Bool, true, false, Option, none, some, List, [], ◌∷◌, ◌++◌, Text, arith,
  latest, last, filter_map, latest-last, text_eq, if◌then◌else◌, or_else, or_else-last,
}
use mathlib.Core.List.{append_assoc, append-nil}
use ri.Base.Sets.{contains, set_insert, set_remove, contains-set_insert, contains-set_remove}
use ri.Message.{Host}
use ri.Agent.Types.{
  AgentMessage, AgentEvent, AgentState, agent_start, agent_end, turn_start, turn_end, message_start,
  message_update, message_end, tool_execution_start, tool_execution_update, tool_execution_end,
}

-- The error that an assistant message carries.
abbrev pub error_of : {H : Host} → AgentMessage H → Option Text
error_of (AgentMessage.assistant m) = m.error_message
error_of _ = none

module _ {H : Host} {Tool : Type 0} where
  unfoldable pub reduce_agent_state : AgentState H Tool → AgentEvent H → AgentState H Tool
  reduce_agent_state s agent_start = s
  reduce_agent_state s turn_start = s
  reduce_agent_state s (agent_end ms) = record s { streaming_message = none }
  reduce_agent_state s (turn_end m results) = record s {
    error_message = latest s.error_message (error_of m);
  }
  reduce_agent_state s (message_start m) = record s { streaming_message = some m }
  reduce_agent_state s (message_update m e) = record s { streaming_message = some m }
  reduce_agent_state s (message_end m) = record s {
    streaming_message = none;
    messages = s.messages ++ m ∷ [];
  }
  reduce_agent_state s (tool_execution_start id name args) = record s {
    pending_tool_calls = set_insert s.pending_tool_calls id;
  }
  reduce_agent_state s (tool_execution_update id name args partial) = s
  reduce_agent_state s (tool_execution_end id name result is_error) = record s {
    pending_tool_calls = set_remove s.pending_tool_calls id;
  }

  unfoldable pub reduce_all : AgentState H Tool → List (AgentEvent H) → AgentState H Tool
  reduce_all s [] = s
  reduce_all s (e ∷ es) = reduce_all (reduce_agent_state s e) es

module _ {H : Host} where
  abbrev pub ended : AgentEvent H → Option (AgentMessage H)
  ended (message_end m) = some m
  ended _ = none

  abbrev pub failure : AgentEvent H → Option Text
  failure (turn_end m results) = error_of m
  failure _ = none

  -- Whether an event starts or ends the tool call `k`.
  abbrev pub runs : Text → AgentEvent H → Option Bool
  runs k (tool_execution_start id name args) = if text_eq id k then some true else none
  runs k (tool_execution_end id name result is_error) = if text_eq id k then some false else none
  runs k _ = none

module _ {H : Host} {Tool : Type 0} where
  reduce_fields :
      (s : AgentState H Tool) (e : AgentEvent H) (k : Text)
      → ((reduce_agent_state s e).error_message ≡ latest s.error_message (failure e))
        × (contains (reduce_agent_state s e).pending_tool_calls k
            ≡ or_else (contains s.pending_tool_calls k) (runs k e))
  unfolding reduce_agent_state
  reduce_fields s agent_start k = (refl, refl)
  reduce_fields s turn_start k = (refl, refl)
  reduce_fields s (agent_end ms) k = (refl, refl)
  reduce_fields s (turn_end m results) k = (refl, refl)
  reduce_fields s (message_start m) k = (refl, refl)
  reduce_fields s (message_update m e) k = (refl, refl)
  reduce_fields s (message_end m) k = (refl, refl)
  reduce_fields s (tool_execution_update id name args partial) k = (refl, refl)
  reduce_fields s (tool_execution_start id name args) k =
      (refl, contains-set_insert s.pending_tool_calls id k ∙ ground arith)
  reduce_fields s (tool_execution_end id name result is_error) k =
      (refl, contains-set_remove s.pending_tool_calls id k ∙ ground arith)

  reduce_all_messages :
      (s : AgentState H Tool) (es : List (AgentEvent H))
      → (reduce_all s es).messages ≡ s.messages ++ filter_map ended es
  unfolding reduce_all reduce_agent_state
  reduce_all_messages s [] = sym (append-nil s.messages)
  reduce_all_messages s (message_end m ∷ es) =
      reduce_all_messages (reduce_agent_state s (message_end m)) es
      ∙ append_assoc s.messages (m ∷ []) (filter_map ended es)
  reduce_all_messages s (e ∷ es) = reduce_all_messages (reduce_agent_state s e) es

  reduce_all_rest :
      (s : AgentState H Tool) (es : List (AgentEvent H)) (k : Text)
      → ((reduce_all s es).error_message ≡ latest s.error_message (last (filter_map failure es)))
        × (contains (reduce_all s es).pending_tool_calls k
            ≡ or_else (contains s.pending_tool_calls k) (last (filter_map (runs k) es)))
  unfolding reduce_all
  reduce_all_rest s [] k = (refl, refl)
  reduce_all_rest s (e ∷ es) k =
      let (x, p) = reduce_fields s e k in
      let (xs, ps) = reduce_all_rest (reduce_agent_state s e) es k in
      (
        rw (xs, x) (latest-last s.error_message (failure e) (filter_map failure es)),
        rw (ps, p)
            (or_else-last (contains s.pending_tool_calls k) (runs k e) (filter_map (runs k) es)),
      )

  -- After any events the transcript has grown by the messages that ended, in order; a tool call is
  -- pending when the last event about it is its start, or as before where there is none; and the
  -- error is that of the last turn that ended with one.
  pub reduce_all_lem :
      (s : AgentState H Tool) (es : List (AgentEvent H)) (k : Text)
      → ((reduce_all s es).messages ≡ s.messages ++ filter_map ended es)
        × (contains (reduce_all s es).pending_tool_calls k
            ≡ or_else (contains s.pending_tool_calls k) (last (filter_map (runs k) es)))
        × ((reduce_all s es).error_message ≡ latest s.error_message (last (filter_map failure es)))
  reduce_all_lem s es k = let (x, p) = reduce_all_rest s es k in (reduce_all_messages s es, p, x)
