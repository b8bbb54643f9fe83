-- ===== src/Retry/Bounds.antt =====
-- How often `retry_assistant_call` of crates/ri-llm-provider/src/retry.rs calls, and that it ends.
use ri.Base.{
  ℕ, zero, suc, ◌+◌, ◌≤◌, ◌<◌, ◌≡◌, refl, subst, ◌∙◌, Bool, true, false, not, ◌||◌, Option, none,
  some, ◌⊎◌, inl, inr, Text, leb, ◌==◌, if◌then◌else◌, arith, codes, or_else,
}
use ri.Message.{Host, AssistantMessage, StopReason}
use ri.Retry.{
  RetryPolicy, RetryCallbacks, is_error, is_aborted, max_attempts_of, delay_ms,
  is_retryable_assistant_error, retry_sleep, read_abort,
}
use ri.Retry.Call.{
  finish, finish_after, schedule, start_attempt, abort_response, slept, back_off, responded,
  retry_loop, retry_assistant_call,
}
use ri.Retry.Sleep.{Slept, retry_sleep-Slept}

-- An error that may be retried.
abbrev again_worth :
    {H : Host} {E : Type 0} → (AssistantMessage H → Bool) → E ⊎ AssistantMessage H → Bool
again_worth retryable (inl e) = false
again_worth retryable (inr m) = retryable m

-- The call has ended, after more than `low` calls and `high` at most, and after `high` where it
-- gives an error that may be retried.
abbrev pub Ended :
    {H : Host} {W E : Type 0}
    → (AssistantMessage H → Bool)
    → (W → ℕ)
    → ℕ
    → ℕ
    → Option ((E ⊎ AssistantMessage H) × W)
    → Type 0
Ended retryable calls low high none = true ≡ false
Ended retryable calls low high (some (r, w)) =
    (low < calls w) × (calls w ≤ high) × ((not (again_worth retryable r) || calls w == high) ≡ true)

aborted-not_error : (r : StopReason) → is_aborted r ≡ true → is_error r ≡ false
unfolding is_aborted is_error
aborted-not_error StopReason.aborted h = refl
aborted-not_error StopReason.stop h = refl
aborted-not_error StopReason.length h = refl
aborted-not_error StopReason.tool_use h = refl
aborted-not_error StopReason.error h = cc h

module _ {H : Host} {W E : Type 0} (non_retryable_limit retryable_provider : Text → Bool)
    (sleep : ℕ → W → W) (produce : W → (E ⊎ AssistantMessage H) × W) (policy : Option RetryPolicy)
    (abort_flag : Option (W → Bool × W)) (callbacks : Option (RetryCallbacks W)) (calls : W → ℕ)
    (produce_counts : (w : W) → calls (produce w).1 ≡ calls w + 1)
    (sleep_keeps : (ms : ℕ) (w : W) → calls (sleep ms w) ≡ calls w)
    (flag_keeps : (w : W) → calls (read_abort abort_flag w).1 ≡ calls w)
    (finish_keeps : (success : Bool) (attempt : ℕ) (error : Option Text) (w : W)
      → calls (finish callbacks success attempt error w) ≡ calls w)
    (schedule_keeps : (attempt max delay : ℕ) (message : Text) (w : W)
      → calls (schedule callbacks attempt max delay message w) ≡ calls w)
    (start_keeps : (w : W) → calls (start_attempt callbacks w) ≡ calls w) where
  Final : ℕ → ℕ → Option ((E ⊎ AssistantMessage H) × W) → Type 0
  Final = Ended (is_retryable_assistant_error non_retryable_limit retryable_provider) calls

  finish_after_keeps :
      (last : Option (ℕ × Text)) (success : Bool) (error : Option Text) (w : W)
      → calls (finish_after callbacks last success error w) ≡ calls w
  unfolding finish_after
  finish_after_keeps none success error w = refl
  finish_after_keeps (some (attempt, message)) success error w =
      finish_keeps success attempt error w

  -- A message that is given back, after the callback.
  done-Final :
      (n k : ℕ) (m : AssistantMessage H) (w : W)
      → calls w ≡ n + 1
      → (not (is_retryable_assistant_error non_retryable_limit retryable_provider m) || k == 0)
        ≡ true
      → Final n (n + 1 + k) (some (inr m, w))
  unfolding Final
  done-Final n k m w c h = (omega (arith, c), omega (arith, c), ground (arith, c, h))

  not_error :
      (m : AssistantMessage H)
      → is_error m.stop_reason ≡ false
      → (k : ℕ)
      → (not (is_retryable_assistant_error non_retryable_limit retryable_provider m) || k == 0)
        ≡ true
  unfolding is_retryable_assistant_error
  not_error m e k = ground (arith, e)

  slept-Final :
      (n k attempt : ℕ) (m : AssistantMessage H) (message : Text)
      (again : Text → W → Option ((E ⊎ AssistantMessage H) × W)) (o : Option (Bool × W))
      → ((message : Text) (w : W) → calls w ≡ n + 1 → Final n (n + 1 + k) (again message w))
      → Slept calls (n + 1) o
      → Final n (n + 1 + k) (
          slept non_retryable_limit retryable_provider sleep produce policy abort_flag callbacks
            again attempt m message o)
  unfolding slept abort_response is_error Final
  slept-Final n k attempt m message again none h s = s
  slept-Final n k attempt m message again (some (true, w)) h s =
      h message (start_attempt callbacks w) (start_keeps w ∙ s)
  slept-Final n k attempt m message again (some (false, w)) h s =
      done-Final n k (abort_response m) (finish callbacks false attempt (some message) w)
        (finish_keeps false attempt (some message) w ∙ s) (not_error (abort_response m) refl k)

  responded-Final :
      (n k attempt : ℕ) (last : Option (ℕ × Text))
      (again : Text → W → Option ((E ⊎ AssistantMessage H) × W)) (r : E ⊎ AssistantMessage H)
      (w : W)
      → attempt + k ≡ max_attempts_of policy
      → calls w ≡ n + 1
      → (leb (max_attempts_of policy) attempt ≡ false
          → (message : Text) (w : W) → calls w ≡ n + 1
          → Final n (n + 1 + k) (again message w))
      → Final n (n + 1 + k) (
          responded non_retryable_limit retryable_provider sleep produce policy abort_flag callbacks
            again attempt last
            (r, w))
  unfolding responded back_off Final
  responded-Final n k attempt last again (inl e) w h c f =
      (omega (arith, c), omega (arith, c), refl)
  responded-Final n k attempt last again (inr m) w h c f =
      by_reason (is_aborted m.stop_reason) (is_error m.stop_reason)
        (leb (max_attempts_of policy) attempt)
        (is_retryable_assistant_error non_retryable_limit retryable_provider m) refl refl refl refl
    where
      message : Text
      message = or_else (codes "Unknown error") m.error_message

      delay : ℕ
      delay = delay_ms policy (attempt + 1) message

      before : W
      before = schedule callbacks (attempt + 1) (max_attempts_of policy) delay message w

      waited : Option ((E ⊎ AssistantMessage H) × W)
      waited =
          back_off non_retryable_limit retryable_provider sleep produce policy abort_flag callbacks
            again (attempt + 1) m w

      waited-Final : leb (max_attempts_of policy) attempt ≡ false → Final n (n + 1 + k) waited
      waited-Final e =
          slept-Final n k (attempt + 1) m message again (retry_sleep sleep abort_flag delay before)
            (f e)
            (subst (λ i. Slept calls i (retry_sleep sleep abort_flag delay before))
              (schedule_keeps (attempt + 1) (max_attempts_of policy) delay message w ∙ c)
              (retry_sleep-Slept sleep abort_flag calls sleep_keeps flag_keeps delay before))

      end-Final :
          (success : Bool) (error : Option Text)
          → (not (is_retryable_assistant_error non_retryable_limit retryable_provider m) || k == 0)
            ≡ true
          → Final n (n + 1 + k) (some (inr m, finish_after callbacks last success error w))
      end-Final success error e =
          done-Final n k m (finish_after callbacks last success error w)
            (finish_after_keeps last success error w ∙ c) e

      by_reason :
          (aborted failed spent worth : Bool)
          → is_aborted m.stop_reason ≡ aborted
          → is_error m.stop_reason ≡ failed
          → leb (max_attempts_of policy) attempt ≡ spent
          → is_retryable_assistant_error non_retryable_limit retryable_provider m ≡ worth
          → Final n (n + 1 + k) (
              if aborted
              then some (inr m, finish_after callbacks last false none w)
              else if not failed
              then some (inr m, finish_after callbacks last true none w)
              else if spent || not worth
              then some (inr m, finish_after callbacks last false m.error_message w)
              else waited)
      by_reason true failed spent worth ea ef es ew =
          end-Final false none (not_error m (aborted-not_error m.stop_reason ea) k)
      by_reason false false spent worth ea ef es ew = end-Final true none (not_error m ef k)
      by_reason false true true worth ea ef es ew =
          end-Final false m.error_message (ground (arith, h, es))
      by_reason false true false false ea ef es ew =
          end-Final false m.error_message (ground (arith, ew))
      by_reason false true false true ea ef es ew = waited-Final es

  Final-later :
      (n n' k : ℕ) (o : Option ((E ⊎ AssistantMessage H) × W))
      → n' ≡ n + 1
      → Final n' (n' + 1 + k) o
      → Final n (n + 1 + suc k) o
  unfolding Final
  Final-later n n' k none e f = f
  Final-later n n' k (some (r, w)) e (low, high, over) =
      (omega (arith, low, e), omega (arith, high, e), ground (arith, over, e))

  abbrev next : ℕ → ℕ → Text → W → Option ((E ⊎ AssistantMessage H) × W)
  next fuel attempt message w =
      retry_loop non_retryable_limit retryable_provider sleep produce policy abort_flag callbacks
        fuel (attempt + 1) (some (attempt + 1, message)) w

  retry_loop-Final :
      (fuel k attempt : ℕ) (last : Option (ℕ × Text)) (w : W)
      → attempt + k ≡ max_attempts_of policy
      → k < fuel
      → Final (calls w) (calls w + 1 + k) (
          retry_loop non_retryable_limit retryable_provider sleep produce policy abort_flag
            callbacks fuel attempt last w)
  unfolding retry_loop Final
  retry_loop-Final zero k attempt last w h l = absurd (omega (arith, l))
  retry_loop-Final (suc fuel) zero attempt last w h l =
      responded-Final (calls w) 0 attempt last (next fuel attempt) (produce w).0 (produce w).1 h
        (produce_counts w) (λ e. absurd (ground (arith, h, e)))
  retry_loop-Final (suc fuel) (suc k) attempt last w h l =
      responded-Final (calls w) (suc k) attempt last (next fuel attempt) (produce w).0 (produce w).1
        h (produce_counts w)
        (λ e message w' c. Final-later (calls w) (calls w') k (next fuel attempt message w') c (
          retry_loop-Final fuel k (attempt + 1) (some (attempt + 1, message)) w' (omega (arith, h))
            (omega (arith, l))))

  -- Where `calls` counts the calls of the model, and no sleep, callback or read of the flag calls it:
  -- the whole ends, with its fuel, after one call at least and one more than the retries of the
  -- policy at most, and an error that may be retried is given back only after all of those.
  pub retry_assistant_call-Ended :
      (w : W)
      → Ended
          (is_retryable_assistant_error non_retryable_limit retryable_provider)
          calls
          (calls w)
          (calls w + 1 + max_attempts_of policy)
          (retry_assistant_call non_retryable_limit retryable_provider sleep produce policy
            abort_flag callbacks w)
  unfolding retry_assistant_call Final
  retry_assistant_call-Ended w =
      retry_loop-Final (max_attempts_of policy + 1) (max_attempts_of policy) 0 none w (omega arith)
        (omega arith)
