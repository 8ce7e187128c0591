-- ===== src/Adapt/Backoff.antt =====
-- ujin/adapt/backoff.py: `Backoff`, the delay after a failure.
pub mod Delays
use ujin.Prelude.{Option, Result, max, min, none, ok, overflow_error, raise, some, ℕ, ◌+◌, ◌-◌}
use ujin.Float.{Float, FloatOps, mul, pow, float_zero}

-- `failures` is the private field `_failures`.
pub record Backoff : Type 0 where
  pub base : Float
  pub factor : Float
  pub cap : Float
  pub failures : ℕ

unfoldable pub on_success : Backoff → Backoff
on_success b = record b { failures = 0 }

module _ ⦃F : FloatOps⦄ where
  -- `base * factor ** n`, cut at `cap`; a power of floats raises when it overflows
  unfoldable pub capped_power : Backoff → ℕ → Result Float
  capped_power b n = elim (pow b.factor n) [
    | none ↦ raise overflow_error
    | some p ↦ ok (min b.cap (mul b.base p))
  ]

  -- The count is raised before the delay is computed, so it stays raised when the power overflows.
  unfoldable pub on_failure : Backoff → Option Float → Backoff × Result Float
  unfolding capped_power
  on_failure b none =
      let b' : Backoff = record b { failures = b.failures + 1 } in
      (b', capped_power b' (b'.failures - 1))
  on_failure b (some retry_after) =
      (record b { failures = b.failures + 1 }, ok (min b.cap (max float_zero retry_after)))
