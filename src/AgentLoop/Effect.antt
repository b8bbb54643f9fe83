-- ===== src/AgentLoop/Effect.antt =====
-- What a part of the agent loop adds to its state: messages to the context, and events to the
-- history and to the log of crates/ri-agent-core/src/agent_loop.rs.
pub mod Tools
pub mod Turn
pub mod Ran
pub mod Loop
pub mod Whole
pub mod Calls
use mathlib.Core.List.{append_assoc, append-nil}
use ri.Base.{
  ◌≡◌, refl, sym, ap, ◌∙◌, Bool, true, false, not, Option, none, some, List, [], ◌∷◌, ◌++◌, map,
  retain, retain-append, filter_map, arith, ℕ, ◌+◌, length, filter_map-append, length-append,
  if◌then◌else◌,
}
use ri.Message.{Host}
use ri.Agent.Types.{AgentMessage, AgentEvent, AgentToolResult}
use ri.Agent.Run.{AgentContext}
use ri.Agent.Reduce.{ended}
use ri.AgentLoop.Types.{AgentLoopConfig, LoopState, LoopContext}
use ri.AgentLoop.Record.{
  is_progress, deliver, record_event, push_message, push_all, record_tool_result_message_events,
  record_injected_messages,
}

module _ {H : Host} where
  abbrev pub is_logged : AgentEvent H → Bool
  unfolding is_progress
  is_logged e = not (is_progress e)

  -- The frame of a run: where it, its turns and its messages begin or end.
  abbrev pub is_outline : AgentEvent H → Bool
  is_outline AgentEvent.agent_start = true
  is_outline (AgentEvent.agent_end ms) = true
  is_outline AgentEvent.turn_start = true
  is_outline (AgentEvent.turn_end m results) = true
  is_outline (AgentEvent.message_end m) = true
  is_outline _ = false

  abbrev pub is_turn_start : AgentEvent H → Bool
  is_turn_start AgentEvent.turn_start = true
  is_turn_start _ = false

  abbrev pub ends : List (AgentMessage H) → List (AgentEvent H)
  ends [] = []
  ends (m ∷ ms) = AgentEvent.message_end m ∷ ends ms

module _ {H : Host} {W : Type 0} where
  -- From `s` to `t` the messages of the context have gained `cs`, and the frame of the new events is
  -- `os`.
  pub record Effect (s t : LoopState H W) (cs : List (AgentMessage H)) (os : List (AgentEvent H))
      : Type 0 where
    pub new : List (AgentEvent H)
    pub history_new : t.history ≡ s.history ++ new
    pub events_new : t.events ≡ s.events ++ retain is_logged new
    pub outline : retain is_outline new ≡ os
    pub context_new : t.context.messages ≡ s.context.messages ++ cs

  pub Effect-trans :
      {s t u : LoopState H W} {cs ds : List (AgentMessage H)} {os ps : List (AgentEvent H)}
      → Effect s t cs os
      → Effect t u ds ps
      → Effect s u (cs ++ ds) (os ++ ps)
  unfolding is_progress
  Effect-trans {s} {t} {u} {cs} {ds} f g = record {
    new = f.new ++ g.new;
    history_new =
        g.history_new
        ∙ ap (λ (l : List (AgentEvent H)). l ++ g.new) f.history_new
        ∙ append_assoc s.history f.new g.new;
    events_new =
        g.events_new
        ∙ ap (λ (l : List (AgentEvent H)). l ++ retain is_logged g.new) f.events_new
        ∙ append_assoc s.events (retain is_logged f.new) (retain is_logged g.new)
        ∙ ap (◌++◌ s.events) (sym (retain-append is_logged f.new g.new));
    outline = retain-append is_outline f.new g.new ∙ rw (f.outline, g.outline) refl;
    context_new =
        g.context_new
        ∙ ap (λ (l : List (AgentMessage H)). l ++ ds) f.context_new
        ∙ append_assoc s.context.messages cs ds;
  }

  pub Effect-world : (s : LoopState H W) (w : W) → Effect s (record s { world = w }) [] []
  Effect-world s w = record {
    new = [];
    history_new = sym (append-nil s.history);
    events_new = sym (append-nil s.events);
    outline = refl;
    context_new = sym (append-nil s.context.messages);
  }

  pub Effect-push :
      (m : AgentMessage H) (s : LoopState H W) → Effect s (push_message m s) (m ∷ []) []
  unfolding push_message
  Effect-push m s = record {
    new = [];
    history_new = sym (append-nil s.history);
    events_new = sym (append-nil s.events);
    outline = refl;
    context_new = refl;
  }

  pub Effect-push_all :
      (ms : List (AgentMessage H)) (s : LoopState H W) → Effect s (push_all ms s) ms []
  unfolding push_all
  Effect-push_all [] s = Effect-world s s.world
  Effect-push_all (m ∷ ms) s =
      Effect-trans (Effect-push m s) (Effect-push_all ms (push_message m s))

module _ {H : Host} {W S : Type 0} (config : AgentLoopConfig H W S) where
  pub Effect-record :
      (e : AgentEvent H) (s : LoopState H W)
      → Effect s (record_event config e s) [] (retain is_outline (e ∷ []))
  unfolding record_event deliver
  Effect-record e s = record {
    new = e ∷ [];
    history_new = ground arith;
    events_new = ground (arith, append-nil s.events);
    outline = refl;
    context_new = ground (arith, append-nil s.context.messages);
  }

  pub Effect-deliver_update :
      (id name : List ℕ) (args : H.Value) (partial : AgentToolResult H) (s : LoopState H W)
      → Effect s (deliver config (AgentEvent.tool_execution_update id name args partial) s) [] []
  unfolding deliver is_progress
  Effect-deliver_update id name args partial s = record {
    new = AgentEvent.tool_execution_update id name args partial ∷ [];
    history_new = refl;
    events_new = sym (append-nil s.events);
    outline = refl;
    context_new = sym (append-nil s.context.messages);
  }

  pub Effect-announce :
      (m : AgentMessage H) (s : LoopState H W)
      → Effect s (record_tool_result_message_events config m s) [] (AgentEvent.message_end m ∷ [])
  unfolding record_tool_result_message_events
  Effect-announce m s = Effect-trans (Effect-record (AgentEvent.message_start m) s) (
      Effect-record (AgentEvent.message_end m) (record_event config (AgentEvent.message_start m) s))

  pub Effect-add :
      (m : AgentMessage H) (s : LoopState H W)
      → Effect s
          (record_event config (AgentEvent.message_end m) (push_message m s))
          (m ∷ [])
          (AgentEvent.message_end m ∷ [])
  Effect-add m s =
      Effect-trans (Effect-push m s) (Effect-record (AgentEvent.message_end m) (push_message m s))

  pub Effect-injected :
      (ms : List (AgentMessage H)) (s : LoopState H W)
      → Effect s (record_injected_messages config ms s) ms (ends ms)
  unfolding record_injected_messages
  Effect-injected [] s = Effect-world s s.world
  Effect-injected (m ∷ ms) s =
      let t = record_event config (AgentEvent.message_start m) s in
      Effect-trans (Effect-record (AgentEvent.message_start m) s) (
        Effect-trans (Effect-add m t)
          (Effect-injected ms (record_event config (AgentEvent.message_end m) (push_message m t))))
