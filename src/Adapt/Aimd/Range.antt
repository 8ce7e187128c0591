-- ===== src/Adapt/Aimd/Range.antt =====
-- The recommendation stays in its range, rises on success and falls on failure.
use ujin.Prelude.{◌≤◌, ◌<◌, arith}
use ujin.Float.{FloatOps, FloatLaws, float_zero, float_one}
use ujin.Adapt.Aimd.{AimdLimiter, value, on_success, on_failure}

module _ ⦃F : FloatOps⦄ where
  pub record IsValid (a : AimdLimiter) : Type 0 where
    pub positive : float_zero ≤ a.min_limit
    pub at_least : a.min_limit ≤ a.limit
    pub at_most : a.limit ≤ a.max_limit
    pub rises : float_zero ≤ a.increase
    pub falls : float_zero < a.decrease
    pub falls_below : a.decrease ≤ float_one

  pub on_success-IsValid : (a : AimdLimiter) → FloatLaws F → IsValid a → IsValid (on_success a)
  unfolding on_success
  on_success-IsValid a L v = ground (arith, L.add_grows a.limit a.increase)

  pub on_failure-IsValid : (a : AimdLimiter) → FloatLaws F → IsValid a → IsValid (on_failure a)
  unfolding on_failure
  on_failure-IsValid a L v = ground (arith, L.mul_shrinks a.limit a.decrease)

  -- A success keeps the limit within its range and never lowers the recommended concurrency, a
  -- failure keeps it and never raises the recommendation, and at least one poll is recommended.
  pub feedback :
      (a : AimdLimiter)
      → FloatLaws F
      → IsValid a
      → IsValid (on_success a)
        × IsValid (on_failure a)
        × (value (on_failure a) ≤ value a)
        × (value a ≤ value (on_success a))
        × (1 ≤ value (on_failure a))
  unfolding on_success on_failure value
  feedback a L v =
      let up = L.add_grows a.limit a.increase in
      let down = L.mul_shrinks a.limit a.decrease in
      let grown = (on_success-IsValid a L v) in
      let cut = (on_failure-IsValid a L v) in
      (
        grown,
        cut,
        ground (arith, down, L.trunc_mono (on_failure a).limit a.limit),
        ground (arith, up, L.trunc_mono a.limit (on_success a).limit),
        ground arith,
      )
