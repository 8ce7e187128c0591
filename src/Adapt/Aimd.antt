-- ===== src/Adapt/Aimd.antt =====
-- ujin/adapt/concurrency.py: `AIMDLimiter`, the recommended concurrency.
pub mod Range
use ujin.Prelude.{ℕ, min, max}
use ujin.Float.{Float, FloatOps, add, mul}

pub record AimdLimiter : Type 0 where
  pub limit : Float
  pub min_limit : Float
  pub max_limit : Float
  pub increase : Float
  pub decrease : Float

module _ ⦃F : FloatOps⦄ where
  unfoldable pub value : AimdLimiter → ℕ
  value a = max 1 (F.trunc a.limit)

  -- Both methods return `value` of the new state.
  unfoldable pub on_success : AimdLimiter → AimdLimiter
  on_success a = record a { limit = min a.max_limit (add a.limit a.increase) }

  unfoldable pub on_failure : AimdLimiter → AimdLimiter
  on_failure a = record a { limit = max a.min_limit (mul a.limit a.decrease) }
