-- ===== src/Retry/Samples.antt =====
-- Retries at concrete inputs: tests of the definitions, and uses of the theorems.
use ri.Base.{
  ℕ, ◌+◌, ◌≡◌, refl, Bool, true, false, Option, none, some, [], ◌⊎◌, inl, inr, Text, codes, text_eq,
}
use ri.Base.Int.{pos}
use ri.Message.{Host, StopReason, usage_zero, AssistantMessage}
use ri.Retry.{
  RetryPolicy, max_attempts_of, delay_ms, is_retryable_assistant_error, read_abort,
  parse_retry_after_hint_ms, strip_retry_after_hint,
}
use ri.Retry.Call.{retry_assistant_call, finish, schedule, start_attempt}
use ri.Retry.Bounds.{Ended, retry_assistant_call-Ended}

abbrev plain : Host
plain = record { Value = ℕ; Float = ℕ; float_zero = 0 }

abbrev fails : AssistantMessage plain
fails = record {
  content = [];
  api = codes "a";
  provider = codes "p";
  model = codes "m";
  response_model = none;
  response_id = none;
  diagnostics = [];
  usage = usage_zero;
  stop_reason = StopReason.error;
  error_message = some (codes "busy (retry-after-ms: 25)");
  timestamp = pos 0;
}

-- The world is the number of calls.
abbrev produce : ℕ → (Text ⊎ AssistantMessage plain) × ℕ
produce w = (inr fails, w + 1)

abbrev sleep : ℕ → ℕ → ℕ
sleep ms w = w

abbrev policy : RetryPolicy
policy = record { enabled = true; max_retries = 2; base_delay_ms = 10 }

abbrev never : Text → Bool
never t = false

abbrev is_busy_text : Text → Bool
is_busy_text t = text_eq t (codes "busy")

hint : parse_retry_after_hint_ms (codes "busy (retry-after-ms: 25)") ≡ some 25
unfolding parse_retry_after_hint_ms
hint = refl

stripped : strip_retry_after_hint (codes "busy (retry-after-ms: 25)") ≡ codes "busy"
unfolding strip_retry_after_hint ri.Base.is_whitespace
stripped = refl

third_delay : delay_ms (some policy) 3 (codes "busy") ≡ 40
unfolding delay_ms
third_delay = refl

three_calls :
    retry_assistant_call never is_busy_text sleep produce (some policy) none none 0
    ≡ some (inr fails, 3)
unfolding retry_assistant_call text_eq ri.Base.is_whitespace
three_calls = refl

retry_assistant_call-Ended_example :
    Ended
      (is_retryable_assistant_error never is_busy_text)
      (λ (w : ℕ). w)
      0
      (0 + 1 + max_attempts_of (some policy))
      (retry_assistant_call never is_busy_text sleep produce (some policy) none none 0)
unfolding read_abort finish schedule start_attempt
retry_assistant_call-Ended_example =
    retry_assistant_call-Ended never is_busy_text sleep produce (some policy) none none (λ w. w)
      (λ w. refl) (λ ms w. refl) (λ w. refl) (λ success attempt error w. refl)
      (λ attempt max delay message w. refl) (λ w. refl) 0
