-- ===== src/Retry/Call.antt =====
-- `retry_assistant_call` of crates/ri-llm-provider/src/retry.rs.
use ri.Base.{
  ℕ, zero, suc, ◌+◌, Bool, true, false, not, ◌||◌, Option, none, some, ◌⊎◌, inl, inr, Text, codes,
  leb, if◌then◌else◌, or_else,
}
use ri.Message.{Host, AssistantMessage, StopReason}
use ri.Retry.{
  RetryPolicy, RetryCallbacks, is_error, is_aborted, max_attempts_of, delay_ms,
  is_retryable_assistant_error, retry_sleep,
}

-- The callbacks, each where it is there.
module _ {W : Type 0} where
  unfoldable pub finish : Option (RetryCallbacks W) → Bool → ℕ → Option Text → W → W
  finish none success attempt error w = w
  finish (some callbacks) success attempt error w = call callbacks.on_retry_finished
    where
      call : Option (Bool → ℕ → Option Text → W → W) → W
      call none = w
      call (some f) = f success attempt error w

  -- Nothing is said where nothing was retried.
  unfoldable pub finish_after :
      Option (RetryCallbacks W) → Option (ℕ × Text) → Bool → Option Text → W → W
  unfolding finish
  finish_after callbacks none success error w = w
  finish_after callbacks (some (attempt, _)) success error w =
      finish callbacks success attempt error w

  unfoldable pub schedule : Option (RetryCallbacks W) → ℕ → ℕ → ℕ → Text → W → W
  schedule none attempt max delay message w = w
  schedule (some callbacks) attempt max delay message w = call callbacks.on_retry_scheduled
    where
      call : Option (ℕ → ℕ → ℕ → Text → W → W) → W
      call none = w
      call (some f) = f attempt max delay message w

  unfoldable pub start_attempt : Option (RetryCallbacks W) → W → W
  start_attempt none w = w
  start_attempt (some callbacks) w = call callbacks.on_retry_attempt_start
    where
      call : Option (W → W) → W
      call none = w
      call (some f) = f w

unfoldable pub abort_response : {H : Host} → AssistantMessage H → AssistantMessage H
abort_response m = record m { stop_reason = StopReason.aborted; error_message = none }

module _ {H : Host} {W E : Type 0} (non_retryable_limit retryable_provider : Text → Bool)
    (sleep : ℕ → W → W) (produce : W → (E ⊎ AssistantMessage H) × W) (policy : Option RetryPolicy)
    (abort_flag : Option (W → Bool × W)) (callbacks : Option (RetryCallbacks W)) where
  unfoldable pub slept :
      (Text → W → Option ((E ⊎ AssistantMessage H) × W))
      → ℕ
      → AssistantMessage H
      → Text
      → Option (Bool × W)
      → Option ((E ⊎ AssistantMessage H) × W)
  unfolding finish start_attempt abort_response
  slept again attempt m message none = none
  slept again attempt m message (some (true, w)) = again message (start_attempt callbacks w)
  slept again attempt m message (some (false, w)) =
      some (inr (abort_response m), finish callbacks false attempt (some message) w)

  -- The backoff before retry `attempt`.
  unfoldable pub back_off :
      (Text → W → Option ((E ⊎ AssistantMessage H) × W))
      → ℕ
      → AssistantMessage H
      → W
      → Option ((E ⊎ AssistantMessage H) × W)
  unfolding slept schedule delay_ms retry_sleep max_attempts_of
  back_off again attempt m w =
      let message = or_else (codes "Unknown error") m.error_message in
      let delay = delay_ms policy attempt message in
      slept again attempt m message (
        retry_sleep sleep abort_flag delay
          (schedule callbacks attempt (max_attempts_of policy) delay message w))

  unfoldable pub responded :
      (Text → W → Option ((E ⊎ AssistantMessage H) × W))
      → ℕ
      → Option (ℕ × Text)
      → (E ⊎ AssistantMessage H) × W
      → Option ((E ⊎ AssistantMessage H) × W)
  unfolding back_off finish_after is_error is_aborted max_attempts_of is_retryable_assistant_error
  responded again attempt last (inl e, w) = some (inl e, w)
  responded again attempt last (inr m, w) =
      if is_aborted m.stop_reason
      then some (inr m, finish_after callbacks last false none w)
      else if not (is_error m.stop_reason)
      then some (inr m, finish_after callbacks last true none w)
      else if leb (max_attempts_of policy) attempt
          || not (is_retryable_assistant_error non_retryable_limit retryable_provider m)
      then some (inr m, finish_after callbacks last false m.error_message w)
      else back_off again (attempt + 1) m w

  unfoldable pub retry_loop : ℕ → ℕ → Option (ℕ × Text) → W → Option ((E ⊎ AssistantMessage H) × W)
  unfolding responded
  retry_loop zero attempt last w = none
  retry_loop (suc fuel) attempt last w =
      responded (λ message w'. retry_loop fuel (attempt + 1) (some (attempt + 1, message)) w')
        attempt last (produce w)

  -- One unit of fuel for each call.
  unfoldable pub retry_assistant_call : W → Option ((E ⊎ AssistantMessage H) × W)
  unfolding retry_loop max_attempts_of
  retry_assistant_call w = retry_loop (max_attempts_of policy + 1) 0 none w
