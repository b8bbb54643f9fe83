-- ===== src/Retry/Sleep.antt =====
-- The sleep of a retry ends: `retry_sleep` of crates/ri-llm-provider/src/retry.rs.
use ri.Base.{
  ℕ, zero, suc, ◌+◌, ◌-◌, ◌<◌, ◌≡◌, refl, subst, ◌∙◌, Bool, true, false, Option, none, some, ltb,
  ◌==◌, if◌then◌else◌, arith,
}
use ri.Retry.{retry_sleep, sleep_loop, read_abort}

-- A sleep ends, after so many calls.
abbrev pub Slept : {W : Type 0} → (W → ℕ) → ℕ → Option (Bool × W) → Type 0
Slept calls n none = true ≡ false
Slept calls n (some (b, w)) = calls w ≡ n

module _ {W : Type 0} (sleep : ℕ → W → W) (abort_flag : Option (W → Bool × W)) (calls : W → ℕ)
    (sleep_keeps : (ms : ℕ) (w : W) → calls (sleep ms w) ≡ calls w)
    (flag_keeps : (w : W) → calls (read_abort abort_flag w).1 ≡ calls w) where
  sleep_loop-Slept :
      (fuel remaining : ℕ) (w : W)
      → remaining < fuel
      → Slept calls (calls w) (sleep_loop sleep abort_flag fuel remaining w)
  unfolding sleep_loop
  sleep_loop-Slept zero remaining w h = absurd (omega (arith, h))
  sleep_loop-Slept (suc fuel) remaining w h =
      by_test (read_abort abort_flag w).0 (remaining == 0) refl (λ e.
        subst
          (λ n. Slept calls n (
            sleep_loop sleep abort_flag fuel (remaining - step)
              (sleep step (read_abort abort_flag w).1)))
          (sleep_keeps step (read_abort abort_flag w).1 ∙ flag_keeps w)
          (sleep_loop-Slept fuel (remaining - step) (sleep step (read_abort abort_flag w).1)
            (ground (arith, h, e))))
    where
      step : ℕ
      step = if ltb remaining 10 then remaining else 10

      by_test :
          (aborted over : Bool)
          → (remaining == 0) ≡ over
          → ((remaining == 0) ≡ false
              → Slept calls (calls w) (
                  sleep_loop sleep abort_flag fuel
                    (remaining - step)
                    (sleep step (read_abort abort_flag w).1)))
          → Slept calls (calls w) (
              if aborted
              then some (false, (read_abort abort_flag w).1)
              else if over
              then some (true, (read_abort abort_flag w).1)
              else sleep_loop sleep abort_flag fuel
                  (remaining - step)
                  (sleep step (read_abort abort_flag w).1))
      by_test true over e rest = flag_keeps w
      by_test false true e rest = flag_keeps w
      by_test false false e rest = rest e

  pub retry_sleep-Slept :
      (delay : ℕ) (w : W) → Slept calls (calls w) (retry_sleep sleep abort_flag delay w)
  unfolding retry_sleep
  retry_sleep-Slept delay w = sleep_loop-Slept (delay + 1) delay w (omega arith)
