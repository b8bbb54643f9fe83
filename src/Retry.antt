-- ===== src/Retry.antt =====
-- Bounded retries of a call of a model: crates/ri-llm-provider/src/retry.rs. The regular
-- expressions of the two classes of errors are parameters, and what the callbacks, the clock and
-- the call itself do is a change of a world.
use ri.Base.{
  ℕ, zero, suc, ◌+◌, ◌-◌, ◌*◌, ◌^◌, Bool, true, false, not, ◌&&◌, ◌||◌, Option, none, some, List,
  [], ◌∷◌, ◌⊎◌, inl, inr, Text, codes, text_eq, trim_end, u64_mod, ltb, leb, ◌==◌, if◌then◌else◌,
  last, is_empty, or_else,
}
use mathlib.Core.Option
use ri.Message.{Host, AssistantMessage, StopReason}
pub mod Call
pub mod Sleep
pub mod Bounds
mod Samples

strip_prefix : Text → Text → Option Text
strip_prefix [] s = some s
strip_prefix (p ∷ prefix) [] = none
strip_prefix (p ∷ prefix) (c ∷ s) =
    let rest = strip_prefix prefix s in if p == c then rest else none

-- `str::rsplit_once`, of a pattern that is not empty.
rsplit_once : Text → Text → Option (Text × Text)
unfolding strip_prefix
rsplit_once pattern [] = none
rsplit_once pattern (c ∷ s) = later (rsplit_once pattern s)
  where
    later : Option (Text × Text) → Option (Text × Text)
    later (some (before, after)) = some (c ∷ before, after)
    later none = Option.map (λ after. ([], after)) (strip_prefix pattern (c ∷ s))

is_digit : ℕ → Bool
is_digit c = leb 48 c && leb c 57

leading_digits : Text → Text
unfolding is_digit
leading_digits [] = []
leading_digits (c ∷ s) = let rest = leading_digits s in if is_digit c then c ∷ rest else []

value_of : ℕ → Text → ℕ
value_of n [] = n
value_of n (c ∷ s) = value_of (n * 10 + (c - 48)) s

parse_u64 : Text → Option ℕ
unfolding value_of
parse_u64 digits =
    let n = value_of 0 digits in
    if is_empty digits then none else if ltb n u64_mod then some n else none

hint_in_tail : Option (Text × Text) → Option ℕ
unfolding parse_u64 leading_digits
hint_in_tail none = none
hint_in_tail (some (before, tail)) = parse_u64 (leading_digits tail)

unfoldable pub parse_retry_after_hint_ms : Text → Option ℕ
unfolding hint_in_tail rsplit_once
parse_retry_after_hint_ms message = hint_in_tail (rsplit_once (codes "(retry-after-ms: ") message)

ends_with_parenthesis : Option ℕ → Bool
ends_with_parenthesis none = false
ends_with_parenthesis (some c) = c == b')'

strip_at : Text → Option (Text × Text) → Text
unfolding ends_with_parenthesis trim_end
strip_at message none = message
strip_at message (some (before, after)) =
    if ends_with_parenthesis (last message) then trim_end before else message

unfoldable pub strip_retry_after_hint : Text → Text
unfolding strip_at rsplit_once
strip_retry_after_hint message = strip_at message (rsplit_once (codes " (retry-after-ms: ") message)

pub record RetryPolicy : Type 0 where
  pub enabled : Bool
  pub max_retries : ℕ
  pub base_delay_ms : ℕ

pub record RetryCallbacks (W : Type 0) : Type 0 where
  pub on_retry_scheduled : Option (ℕ → ℕ → ℕ → Text → W → W)
  pub on_retry_attempt_start : Option (W → W)
  pub on_retry_finished : Option (Bool → ℕ → Option Text → W → W)

unfoldable pub is_error : StopReason → Bool
is_error StopReason.error = true
is_error _ = false

unfoldable pub is_aborted : StopReason → Bool
is_aborted StopReason.aborted = true
is_aborted _ = false

unfoldable pub max_attempts_of : Option RetryPolicy → ℕ
max_attempts_of none = 0
max_attempts_of (some policy) = if policy.enabled then policy.max_retries else 0

base_of : Option RetryPolicy → ℕ
base_of none = 0
base_of (some policy) = policy.base_delay_ms

-- `saturating_mul` of `u64`.
saturating_mul : ℕ → ℕ → ℕ
saturating_mul a b = if ltb (a * b) u64_mod then a * b else u64_mod - 1

-- The wait before retry `attempt`, which counts from 1.
unfoldable pub delay_ms : Option RetryPolicy → ℕ → Text → ℕ
unfolding base_of saturating_mul parse_retry_after_hint_ms
delay_ms policy attempt message =
    or_else
      (saturating_mul (base_of policy) (2 ^ (if ltb 62 (attempt - 1) then 62 else attempt - 1)))
      (parse_retry_after_hint_ms message)

-- The two patterns, in any letters.
module _ (non_retryable_limit retryable_provider : Text → Bool) where
  retryable_text : Option Text → Bool
  unfolding strip_retry_after_hint
  retryable_text none = false
  retryable_text (some message) =
      let stripped = strip_retry_after_hint message in
      not (is_empty message) && not (non_retryable_limit stripped) && retryable_provider stripped

  unfoldable pub is_retryable_assistant_error : {H : Host} → AssistantMessage H → Bool
  unfolding is_error retryable_text
  is_retryable_assistant_error m = is_error m.stop_reason && retryable_text m.error_message

module _ {W : Type 0} (abort_flag : Option (W → Bool × W)) where
  unfoldable pub read_abort : W → Bool × W
  read_abort w = load abort_flag
    where
      load : Option (W → Bool × W) → Bool × W
      load none = (false, w)
      load (some flag) = flag w

module _ {W : Type 0} (sleep : ℕ → W → W) (abort_flag : Option (W → Bool × W)) where
  unfoldable pub sleep_loop : ℕ → ℕ → W → Option (Bool × W)
  unfolding read_abort
  sleep_loop zero remaining w = none
  sleep_loop (suc fuel) remaining w =
      let (aborted, w') = read_abort abort_flag w in
      let step = if ltb remaining 10 then remaining else 10 in
      let rest = sleep_loop fuel (remaining - step) (sleep step w') in
      if aborted then some (false, w') else if remaining == 0 then some (true, w') else rest

  -- Each round sleeps for a millisecond at least.
  unfoldable pub retry_sleep : ℕ → W → Option (Bool × W)
  unfolding sleep_loop
  retry_sleep delay w = sleep_loop (delay + 1) delay w
