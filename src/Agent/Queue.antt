-- ===== src/Agent/Queue.antt =====
-- `PendingMessageQueue` of crates/ri-agent-core/src/agent.rs, and the chain that reads a queue and
-- then a further provider.
use mathlib.Core.List.{append_assoc, append-nil}
use ri.Base.{
  ◌≡◌, refl, sym, ap, ◌∙◌, Bool, not, Option, none, some, List, [], ◌∷◌, ◌++◌, Text, is_empty,
  arith, ◌≢◌, length, ◌<◌,
}
use ri.Agent.Types.{QueueMode, all, one_at_a_time}

-- Generic in the messages, of which the queue knows nothing.
pub record PendingMessageQueue {ℓ} (M : Type ℓ) : Type ℓ where
  pub mode : QueueMode
  pub messages : List M

-- What a provider of messages answers.
pub data Answer {ℓ} (M : Type ℓ) : Type ℓ where
  given : List M → Answer M
  failed : Text → Answer M

-- What is done to a queue in the life of an agent, clearing apart.
pub data Use {ℓ} (M : Type ℓ) : Type ℓ where
  enqueues : M → Use M
  sets : QueueMode → Use M
  drains : Use M

module _ {ℓ} {M : Type ℓ} where
  abbrev pub new_queue : QueueMode → PendingMessageQueue M
  new_queue mode = record { mode = mode; messages = [] }

  unfoldable pub enqueue : PendingMessageQueue M → M → PendingMessageQueue M
  enqueue q m = record q { messages = q.messages ++ m ∷ [] }

  unfoldable pub set_mode : PendingMessageQueue M → QueueMode → PendingMessageQueue M
  set_mode q mode = record q { mode = mode }

  -- `pop_front().into_iter().collect()`, and what stays.
  pop_front : List M → List M × List M
  pop_front [] = ([], [])
  pop_front (m ∷ ms) = (m ∷ [], ms)

  take_by : QueueMode → List M → List M × List M
  unfolding pop_front
  take_by all ms = (ms, [])
  take_by one_at_a_time ms = pop_front ms

  -- The messages that are taken out, and the queue without them.
  unfoldable pub drain_now : PendingMessageQueue M → List M × PendingMessageQueue M
  unfolding take_by
  drain_now q = let (out, rest) = take_by q.mode q.messages in (out, record q { messages = rest })

  unfoldable pub has_items : PendingMessageQueue M → Bool
  has_items q = not (is_empty q.messages)

  unfoldable pub clear : PendingMessageQueue M → PendingMessageQueue M
  clear q = record q { messages = [] }

  -- No further provider answers `none`.
  chain : List M → Option (Answer M) → Answer M
  chain out none = given out
  chain out (some (given more)) = given (out ++ more)
  chain out (some (failed e)) = failed e

  -- `QueuedMessageProviderChain::get_queued_messages`, with what the further provider answers.
  unfoldable pub get_queued_messages :
      PendingMessageQueue M → Option (Answer M) → Answer M × PendingMessageQueue M
  unfolding chain
  get_queued_messages q extra = let (out, rest) = drain_now q in (chain out extra, rest)

  -- The queue after some uses, and all messages that were drained, in order.
  unfoldable pub after_uses : PendingMessageQueue M → List (Use M) → List M × PendingMessageQueue M
  after_uses q [] = ([], q)
  after_uses q (enqueues m ∷ us) = after_uses (enqueue q m) us
  after_uses q (sets mode ∷ us) = after_uses (set_mode q mode) us
  after_uses q (drains ∷ us) =
      let (out, rest) = drain_now q in let (more, last) = after_uses rest us in (out ++ more, last)

  abbrev pub enqueued : List (Use M) → List M
  enqueued [] = []
  enqueued (enqueues m ∷ us) = m ∷ enqueued us
  enqueued (sets mode ∷ us) = enqueued us
  enqueued (drains ∷ us) = enqueued us

  pub drain_now-split :
      (q : PendingMessageQueue M) → (drain_now q).0 ++ (drain_now q).1.messages ≡ q.messages
  unfolding drain_now
  drain_now-split q = split q.mode q.messages
    where
      split : (mode : QueueMode) (ms : List M) → (take_by mode ms).0 ++ (take_by mode ms).1 ≡ ms
      split all ms = append-nil ms
      split one_at_a_time [] = refl
      split one_at_a_time (m ∷ ms) = refl

  pub drain_now-has_items :
      (q : PendingMessageQueue M) → is_empty (drain_now q).0 ≡ not (has_items q)
  unfolding drain_now has_items
  drain_now-has_items q = by_mode q.mode q.messages
    where
      by_mode :
          (mode : QueueMode) (ms : List M) → is_empty (take_by mode ms).0 ≡ not (not (is_empty ms))
      by_mode all [] = refl
      by_mode all (m ∷ ms) = refl
      by_mode one_at_a_time [] = refl
      by_mode one_at_a_time (m ∷ ms) = refl

  pub drain_now_empty :
      (q : PendingMessageQueue M) → (drain_now q).0 ≡ [] → (drain_now q).1.messages ≡ []
  unfolding drain_now
  drain_now_empty q = by_mode q.mode q.messages
    where
      by_mode :
          (mode : QueueMode) (ms : List M) → (take_by mode ms).0 ≡ [] → (take_by mode ms).1 ≡ []
      by_mode all ms h = refl
      by_mode one_at_a_time [] h = refl
      by_mode one_at_a_time (m ∷ ms) h = absurd (ground (arith, h))

  -- No message is lost, doubled or passed by another, in whatever way the mode is changed between:
  -- those that were drained, and then those still queued, are those that were queued at first, and
  -- then those that were added.
  pub after_uses_fifo :
      (q : PendingMessageQueue M) (us : List (Use M))
      → (after_uses q us).0 ++ (after_uses q us).1.messages ≡ q.messages ++ enqueued us
  unfolding after_uses enqueue set_mode
  after_uses_fifo q [] = sym (append-nil q.messages)
  after_uses_fifo q (enqueues m ∷ us) =
      after_uses_fifo (enqueue q m) us ∙ append_assoc q.messages (m ∷ []) (enqueued us)
  after_uses_fifo q (sets mode ∷ us) = after_uses_fifo (set_mode q mode) us
  after_uses_fifo q (drains ∷ us) =
      append_assoc (drain_now q).0 (after_uses (drain_now q).1 us).0
        (after_uses (drain_now q).1 us).1.messages
      ∙ ap (◌++◌ (drain_now q).0) (after_uses_fifo (drain_now q).1 us)
      ∙ sym (append_assoc (drain_now q).0 (drain_now q).1.messages (enqueued us))
      ∙ ap (λ ms. ms ++ enqueued us) (drain_now-split q)

  -- Where the further provider fails, the messages that were drained before it was asked are gone:
  -- a queue that held one has fewer, and the answer is the failure alone.
  pub get_queued_messages_lost :
      (q : PendingMessageQueue M) (e : Text)
      → q.messages ≢ []
      → ((get_queued_messages q (some (failed e))).0 ≡ failed e)
        × (length (get_queued_messages q (some (failed e))).1.messages < length q.messages)
  unfolding get_queued_messages drain_now
  get_queued_messages_lost q e h = (refl, shorter q.mode q.messages h)
    where
      shorter : (mode : QueueMode) (ms : List M) → ms ≢ [] → length (take_by mode ms).1 < length ms
      shorter mode [] h = absurd (h refl)
      shorter all (m ∷ ms) h = omega arith
      shorter one_at_a_time (m ∷ ms) h = omega arith
