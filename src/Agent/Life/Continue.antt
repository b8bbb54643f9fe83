-- ===== src/Agent/Life/Continue.antt =====
-- `Agent::continue_run` of agent.rs: when it begins a run, and that it loses no queued message.
use ri.Base.{
  ◌≡◌, refl, sym, ap, ◌∙◌, Bool, true, false, not, ◌||◌, ◌&&◌, ◌++◌, List, [], ◌∷◌, inl, inr,
  Bool-cases, arith, is_empty, last,
}
use mathlib.Core.List.{append-nil}
use ri.Message.{Host}
use ri.Agent.Types.{AgentMessage}
use ri.Agent.Queue.{
  PendingMessageQueue, drain_now, drain_now-split, drain_now-has_items, drain_now_empty, has_items,
}
use ri.Agent.Machine.{Agent, has_queued_messages}
use ri.Agent.Run.{
  Outcome, ok, err, Started, LoopCall, prompt_with, run_with_skip, is_busy, continue_run,
  is_assistant, from_steering, from_follow_up,
}

append-middle_empty :
    {A : Type 0} (xs ys zs ws : List A) → ys ≡ [] → xs ++ zs ≡ ws → xs ++ ys ++ zs ≡ ws
append-middle_empty xs ys zs ws e h = rw (e, append-nil xs) h

module _ {H : Host} {Tool Listener : Type 0} where
  -- The messages that a run begins with.
  abbrev pub given_to : Outcome (Started H Tool Listener) → List (AgentMessage H)
  given_to (ok s) = messages s.call
    where
      messages : LoopCall H → List (AgentMessage H)
      messages (LoopCall.prompt p) = []
      messages (LoopCall.prompt_messages ms) = ms
      messages LoopCall.continue = []
  given_to (err e) = []

  abbrev pub begins : Outcome (Started H Tool Listener) → Bool
  begins (ok s) = true
  begins (err e) = false

  from_follow_up_lem :
      (a : Agent H Tool Listener) (out : List (AgentMessage H))
      (rest : PendingMessageQueue (AgentMessage H))
      → is_busy a ≡ false
      → let r = from_follow_up a (out, rest) in
        (given_to r.1 ++ r.0.follow_up_queue.messages ≡ out ++ rest.messages)
        × (begins r.1 ≡ not (is_empty out))
        × (r.0.steering_queue ≡ a.steering_queue)
        × (r.0.state ≡ a.state)
  unfolding from_follow_up prompt_with run_with_skip is_busy
  from_follow_up_lem a [] rest h = (refl, refl, refl, refl)
  from_follow_up_lem a (m ∷ ms) rest h = (ground arith, ground arith, refl, refl)

  from_steering_lem :
      (a : Agent H Tool Listener) (out : List (AgentMessage H))
      (rest : PendingMessageQueue (AgentMessage H))
      → is_busy a ≡ false
      → (out ≡ [] → rest.messages ≡ [])
      → let r = from_steering a (out, rest) in
        (given_to r.1 ++ r.0.steering_queue.messages ++ r.0.follow_up_queue.messages
          ≡ (out ++ rest.messages) ++ a.follow_up_queue.messages)
        × (begins r.1 ≡ (not (is_empty out) || has_items a.follow_up_queue))
        × (r.0.state ≡ a.state)
  unfolding from_steering run_with_skip is_busy
  from_steering_lem a (m ∷ ms) rest h e = (ground arith, ground arith, refl)
  from_steering_lem a [] rest h e =
      let q = a.follow_up_queue in
      let (x, b, c, d) =
        from_follow_up_lem (record a { steering_queue = rest }) (drain_now q).0 (drain_now q).1 h in
      (
        append-middle_empty _ _ _ _
            (ap (λ (p : PendingMessageQueue (AgentMessage H)). p.messages) c ∙ e refl)
            (x ∙ drain_now-split q ∙ ap (λ ms. ms ++ q.messages) (sym (e refl))),
        b ∙ ground (arith, drain_now-has_items q),
        d,
      )

  continue-plain :
      (a : Agent H Tool Listener)
      → is_busy a ≡ false
      → (given_to (run_with_skip a LoopCall.continue false) ≡ [])
        × (begins (run_with_skip a LoopCall.continue false) ≡ true)
  unfolding is_busy run_with_skip
  continue-plain a h = (ground arith, ground arith)

  -- `continue_run` loses no message: those the run is given, those left in the steering queue and
  -- those left in the follow-up queue are, in this order, what the two queues held; and it begins a
  -- run just when the agent is not busy, there is a transcript, and, where that ends with an
  -- assistant message, one of the queues holds a message.
  pub continue_run_lem :
      (a : Agent H Tool Listener)
      → let r = continue_run a in
        (given_to r.1 ++ r.0.steering_queue.messages ++ r.0.follow_up_queue.messages
          ≡ a.steering_queue.messages ++ a.follow_up_queue.messages)
        × (begins r.1 ≡ (
            not (is_busy a)
            && (not (is_empty a.state.messages)
                && (not (is_assistant (last a.state.messages)) || has_queued_messages a))))
        × (r.0.state ≡ a.state)
  unfolding continue_run has_queued_messages
  continue_run_lem a =
      let q = a.steering_queue in
      elim (Bool-cases (is_busy a)) [
        | inl b ↦ rw (b) (refl, refl, refl)
        | inr b ↦ elim (Bool-cases (is_empty a.state.messages)) [
          | inl m ↦ rw (b, m) (refl, refl, refl)
          | inr m ↦ elim (Bool-cases (is_assistant (last a.state.messages))) [
            | inl t ↦
                let (x, y, z) =
                  from_steering_lem a (drain_now q).0 (drain_now q).1 b (drain_now_empty q) in
                rw (b, m, t)
                  (
                    x ∙ ap (λ ms. ms ++ a.follow_up_queue.messages) (drain_now-split q),
                    y ∙ ground (arith, drain_now-has_items q),
                    z,
                  )
            | inr t ↦ let (x, y) = continue-plain a b in rw (b, m, t, x, y) (refl, refl, refl)
          ]
        ]
      ]
