-- ===== src/AgentLoop/Effect/Turn.antt =====
-- What a turn adds to the state of the loop of crates/ri-agent-core/src/agent_loop.rs.
use mathlib.Core.List.{append-nil}
use ri.Base.{Bool, true, false, Option, List, [], ◌∷◌, ◌++◌, subst, none}
use ri.Message.{Host, AssistantMessage, ToolResultMessage}
use ri.Agent.Types.{AgentMessage, AgentEvent, AssistantMessageEvent}
use ri.Agent.Run.{Outcome, ok, err}
use ri.AgentLoop.Types.{
  AgentLoopConfig, LoopState, Outside, TurnOutcome, AssistantMessageEventStream,
}
use ri.AgentLoop.Record.{record_event}
use ri.AgentLoop.Turn.{
  read_stream, stream_event, record_assistant, respond, read_response, run_one_turn, run_tools,
  final_message, request,
}
use ri.AgentLoop.Effect.{Effect, ends, Effect-trans, Effect-world, Effect-record, Effect-add}
use ri.AgentLoop.Effect.Tools.{as_messages, Effect-tools}

module _ {H : Host} where
  abbrev pub closing : List (AgentMessage H) → List (ToolResultMessage H) → List (AgentEvent H)
  closing [] results = []
  closing (m ∷ ms) results = AgentEvent.turn_end m results ∷ []

  -- The messages and the frame of a turn; a turn that fails adds nothing.
  abbrev pub turn_messages : Outcome (TurnOutcome H) → List (AgentMessage H)
  turn_messages (err e) = []
  turn_messages (ok o) = o.messages

  abbrev pub turn_frame : Outcome (TurnOutcome H) → List (AgentEvent H)
  turn_frame (err e) = []
  turn_frame (ok o) = ends o.messages ++ closing o.messages o.tool_results

module _ {H : Host} {W S : Type 0} (config : AgentLoopConfig H W S) where
  Effect-stream_event :
      (e : AssistantMessageEvent H) (r : (Option (AssistantMessage H) × Bool) × LoopState H W)
      → Effect r.1 (stream_event config e r).1 [] []
  unfolding stream_event
  Effect-stream_event (AssistantMessageEvent.start m) ((f, b), s) = Effect-record config _ s
  Effect-stream_event (AssistantMessageEvent.done reason m) ((f, b), s) = Effect-world s s.world
  Effect-stream_event (AssistantMessageEvent.error reason m) ((f, b), s) = Effect-world s s.world
  Effect-stream_event (AssistantMessageEvent.text_start i m) ((f, b), s) = Effect-record config _ s
  Effect-stream_event (AssistantMessageEvent.text_delta i d m) ((f, b), s) =
      Effect-record config _ s
  Effect-stream_event (AssistantMessageEvent.text_end i c m) ((f, b), s) = Effect-record config _ s
  Effect-stream_event (AssistantMessageEvent.thinking_start i m) ((f, b), s) =
      Effect-record config _ s
  Effect-stream_event (AssistantMessageEvent.thinking_delta i d m) ((f, b), s) =
      Effect-record config _ s
  Effect-stream_event (AssistantMessageEvent.thinking_end i c m) ((f, b), s) =
      Effect-record config _ s
  Effect-stream_event (AssistantMessageEvent.toolcall_start i m) ((f, b), s) =
      Effect-record config _ s
  Effect-stream_event (AssistantMessageEvent.toolcall_delta i d m) ((f, b), s) =
      Effect-record config _ s
  Effect-stream_event (AssistantMessageEvent.toolcall_end i c m) ((f, b), s) =
      Effect-record config _ s

  Effect-stream :
      (es : List (AssistantMessageEvent H))
      (r : (Option (AssistantMessage H) × Bool) × LoopState H W)
      → Effect r.1 (read_stream config es r).1 [] []
  unfolding read_stream
  Effect-stream [] r = Effect-world r.1 r.1.world
  Effect-stream (e ∷ es) r =
      Effect-trans (Effect-stream_event e r) (Effect-stream es (stream_event config e r))

  Effect-assistant :
      (started : Bool) (m : AgentMessage H) (s : LoopState H W)
      → Effect s (record_assistant config started m s) (m ∷ []) (AgentEvent.message_end m ∷ [])
  unfolding record_assistant
  Effect-assistant true m s = Effect-add config m s
  Effect-assistant false m s =
      Effect-trans (Effect-record config (AgentEvent.message_start m) s)
        (Effect-add config m (record_event config (AgentEvent.message_start m) s))

module _ {H : Host} {W S : Type 0} (outside : Outside H W S) (config : AgentLoopConfig H W S) where
  Effect-respond :
      (started : Bool) (answer : Outcome (AssistantMessage H)) (s : LoopState H W)
      → let (o, t) = respond outside config started answer s in
        Effect s t (turn_messages o) (turn_frame o)
  unfolding respond
  Effect-respond started (err e) s = Effect-world s s.world
  Effect-respond started (ok m) s =
      let message = AgentMessage.assistant m in
      let s1 = record_assistant config started message s in
      let ((results, ends_run), t) = run_tools outside config m.stop_reason m s1 in
      subst
        (λ (cs : List (AgentMessage H)).
          Effect s (record_event config (AgentEvent.turn_end message results) t) cs
            (ends (message ∷ as_messages results) ++ AgentEvent.turn_end message results ∷ []))
        (append-nil (message ∷ as_messages results))
        (Effect-trans
          (Effect-trans (Effect-assistant config started message s)
            (Effect-tools outside config m.stop_reason m s1))
          (Effect-record config (AgentEvent.turn_end message results) t))

  Effect-response :
      (stream : Outcome (AssistantMessageEventStream H)) (s : LoopState H W)
      → let (o, t) = read_response outside config stream s in
        Effect s t (turn_messages o) (turn_frame o)
  unfolding read_response
  Effect-response (err e) s = Effect-world s s.world
  Effect-response (ok stream) s =
      let ((final, started), t) = read_stream config stream.events ((none, false), s) in
      Effect-trans (Effect-stream config stream.events ((none, false), s))
        (Effect-respond started (final_message final stream.try_result) t)

  -- A turn adds its messages to the context, in the order in which they end in its events, and then
  -- ends; a turn that fails adds no message.
  pub Effect-turn :
      (s : LoopState H W)
      → let (o, t) = run_one_turn outside config s in Effect s t (turn_messages o) (turn_frame o)
  unfolding run_one_turn
  Effect-turn s =
      let (stream, w) = request outside config s.context s.world in
      Effect-trans (Effect-world s w) (Effect-response stream (record s { world = w }))
