-- ===== src/AgentLoop/Pairs/Turn.antt =====
-- No tool call is left open by a turn of the loop of crates/ri-agent-core/src/agent_loop.rs.
use ri.Base.{refl, Bool, true, false, Option, none, List, [], ◌∷◌, Text}
use ri.Message.{Host, AssistantMessage}
use ri.Agent.Types.{AgentMessage, AgentEvent, AssistantMessageEvent}
use ri.Agent.Run.{Outcome, ok, err}
use ri.AgentLoop.Types.{AgentLoopConfig, LoopState, Outside, AssistantMessageEventStream}
use ri.AgentLoop.Record.{record_event, push_message, record_injected_messages}
use ri.AgentLoop.Turn.{
  read_stream, stream_event, record_assistant, respond, read_response, run_one_turn, request,
  final_message,
}
use ri.AgentLoop.Call.{record_prompts}
use ri.AgentLoop.Pairs.{OpenIn, OpenIn-quiet, OpenIn-announce}
use ri.AgentLoop.Pairs.Tools.{OpenIn-tools}

module _ {H : Host} {W S : Type 0} (config : AgentLoopConfig H W S) (p : Text → Bool) where
  OpenIn-stream_event :
      (e : AssistantMessageEvent H) (r : (Option (AssistantMessage H) × Bool) × LoopState H W)
      → OpenIn p r.1
      → OpenIn p (stream_event config e r).1
  unfolding stream_event
  OpenIn-stream_event (AssistantMessageEvent.start m) ((f, b), s) o =
      OpenIn-quiet config p _ s (λ k. refl) o
  OpenIn-stream_event (AssistantMessageEvent.done reason m) ((f, b), s) o = o
  OpenIn-stream_event (AssistantMessageEvent.error reason m) ((f, b), s) o = o
  OpenIn-stream_event (AssistantMessageEvent.text_start i m) ((f, b), s) o =
      OpenIn-quiet config p _ s (λ k. refl) o
  OpenIn-stream_event (AssistantMessageEvent.text_delta i d m) ((f, b), s) o =
      OpenIn-quiet config p _ s (λ k. refl) o
  OpenIn-stream_event (AssistantMessageEvent.text_end i c m) ((f, b), s) o =
      OpenIn-quiet config p _ s (λ k. refl) o
  OpenIn-stream_event (AssistantMessageEvent.thinking_start i m) ((f, b), s) o =
      OpenIn-quiet config p _ s (λ k. refl) o
  OpenIn-stream_event (AssistantMessageEvent.thinking_delta i d m) ((f, b), s) o =
      OpenIn-quiet config p _ s (λ k. refl) o
  OpenIn-stream_event (AssistantMessageEvent.thinking_end i c m) ((f, b), s) o =
      OpenIn-quiet config p _ s (λ k. refl) o
  OpenIn-stream_event (AssistantMessageEvent.toolcall_start i m) ((f, b), s) o =
      OpenIn-quiet config p _ s (λ k. refl) o
  OpenIn-stream_event (AssistantMessageEvent.toolcall_delta i d m) ((f, b), s) o =
      OpenIn-quiet config p _ s (λ k. refl) o
  OpenIn-stream_event (AssistantMessageEvent.toolcall_end i c m) ((f, b), s) o =
      OpenIn-quiet config p _ s (λ k. refl) o

  OpenIn-stream :
      (es : List (AssistantMessageEvent H))
      (r : (Option (AssistantMessage H) × Bool) × LoopState H W)
      → OpenIn p r.1
      → OpenIn p (read_stream config es r).1
  unfolding read_stream
  OpenIn-stream [] r o = o
  OpenIn-stream (e ∷ es) r o =
      OpenIn-stream es (stream_event config e r) (OpenIn-stream_event e r o)

  pub OpenIn-add :
      (m : AgentMessage H) (s : LoopState H W)
      → OpenIn p s
      → OpenIn p (record_event config (AgentEvent.message_end m) (push_message m s))
  unfolding push_message
  OpenIn-add m s o = OpenIn-quiet config p (AgentEvent.message_end m) _ (λ k. refl) o

  OpenIn-assistant :
      (started : Bool) (m : AgentMessage H) (s : LoopState H W)
      → OpenIn p s
      → OpenIn p (record_assistant config started m s)
  unfolding record_assistant
  OpenIn-assistant true m s o = OpenIn-add m s o
  OpenIn-assistant false m s o =
      OpenIn-add m _ (OpenIn-quiet config p (AgentEvent.message_start m) s (λ k. refl) o)

  pub OpenIn-injected :
      (ms : List (AgentMessage H)) (s : LoopState H W)
      → OpenIn p s
      → OpenIn p (record_injected_messages config ms s)
  unfolding record_injected_messages
  OpenIn-injected [] s o = o
  OpenIn-injected (m ∷ ms) s o =
      OpenIn-injected ms _
        (OpenIn-add m _ (OpenIn-quiet config p (AgentEvent.message_start m) s (λ k. refl) o))

  pub OpenIn-prompts :
      (ms : List (AgentMessage H)) (s : LoopState H W)
      → OpenIn p s
      → OpenIn p (record_prompts config ms s)
  unfolding record_prompts
  OpenIn-prompts [] s o = o
  OpenIn-prompts (m ∷ ms) s o = OpenIn-prompts ms _ (OpenIn-announce config p m s o)

module _ {H : Host} {W S : Type 0} (outside : Outside H W S) (p : Text → Bool) where
  OpenIn-respond :
      (config : AgentLoopConfig H W S) (started : Bool) (answer : Outcome (AssistantMessage H))
      (s : LoopState H W)
      → OpenIn p s
      → OpenIn p (respond outside config started answer s).1
  unfolding respond
  OpenIn-respond config started (err e) s o = o
  OpenIn-respond config started (ok m) s o =
      OpenIn-quiet config p _ _ (λ k. refl)
        (OpenIn-tools outside config p m.stop_reason m _
          (OpenIn-assistant config p started (AgentMessage.assistant m) s o))

  OpenIn-response :
      (config : AgentLoopConfig H W S) (stream : Outcome (AssistantMessageEventStream H))
      (s : LoopState H W)
      → OpenIn p s
      → OpenIn p (read_response outside config stream s).1
  unfolding read_response
  OpenIn-response config (err e) s o = o
  OpenIn-response config (ok stream) s o =
      let ((final, started), t) = read_stream config stream.events ((none, false), s) in
      OpenIn-respond config started (final_message final stream.try_result) t
        (OpenIn-stream config p stream.events ((none, false), s) o)

  pub OpenIn-turn :
      (config : AgentLoopConfig H W S) (s : LoopState H W)
      → OpenIn p s
      → OpenIn p (run_one_turn outside config s).1
  unfolding run_one_turn
  OpenIn-turn config s o =
      let (stream, w) = request outside config s.context s.world in
      OpenIn-response config stream (record s { world = w }) o
