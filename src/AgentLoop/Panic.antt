-- ===== src/AgentLoop/Panic.antt =====
-- The end of a run by an error, `finish_agent_loop_with_error` of
-- crates/ri-agent-core/src/agent_loop.rs, when a turn has replaced the context.
use ri.Base.{
  ℕ, ◌+◌, ◌<◌, ◌≡◌, ap, ◌∙◌, none, List, [], ◌∷◌, Text, length, length-append, arith, ◌↔◌,
}
use ri.Message.{Host}
use ri.Agent.Types.{AgentMessage}
use ri.AgentLoop.Types.{AgentLoopConfig, LoopState, Outside}
use ri.AgentLoop.Prepare.{loop_aborted}
use ri.AgentLoop.Call.{finish_agent_loop_with_error, finish_state, slice_from, error_assistant}
use ri.AgentLoop.Effect.Whole.{Effect-finish}

slice_from-none : {A : Type 0} (n : ℕ) (ms : List A) → (slice_from n ms ≡ none) ↔ (length ms < n)
unfolding slice_from
slice_from-none n ms = (λ h. ground (arith, h), λ h. ground arith)

module _ {H : Host} {W S : Type 0} (outside : Outside H W S) (config : AgentLoopConfig H W S) where
  -- A run that ends by an error panics exactly when its context, which a turn may have replaced, has
  -- become shorter than it was at the call by two messages or more, since the message of the error
  -- is added first.
  pub finish_agent_loop_with_error_panics :
      (original_len : ℕ) (e : Text) (s : LoopState H W)
      → ((finish_agent_loop_with_error outside config original_len e s).0 ≡ none)
        ↔ (length s.context.messages + 1 < original_len)
  unfolding finish_agent_loop_with_error
  finish_agent_loop_with_error_panics original_len e s =
      let (is_aborted, w) = loop_aborted config s.world in
      let (now, w') = outside.now_millis w in
      let m = AgentMessage.assistant (error_assistant config is_aborted e now) in
      let t = finish_state config m (record s { world = w' }) in
      let f = Effect-finish config m (record s { world = w' }) in
      let grown : length t.context.messages ≡ length s.context.messages + 1 =
        ap length f.context_new ∙ length-append s.context.messages (m ∷ []) in
      let none_when = slice_from-none original_len t.context.messages in
      (λ h. omega (arith, none_when.0 h, grown), λ h. none_when.1 (omega (arith, h, grown)))
