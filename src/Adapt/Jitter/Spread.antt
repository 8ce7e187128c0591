-- ===== src/Adapt/Jitter/Spread.antt =====
-- How far jitter moves a delay.
use ujin.Prelude.{Option, String, arith, ok, some, ◌≡◌, ◌≤◌}
use ujin.Float.{Float, FloatOps, FloatLaws, float_zero, float_one, lit, mul, div}
use ujin.Adapt.Jitter.{apply, or_else}

-- `rng.uniform(lo, hi)` returns a number between its arguments.
abbrev pub IsUniform : (Float → Float → Float) → Type 0
IsUniform draw = (lo hi : Float) → lo ≤ hi → (lo ≤ draw lo hi) × (draw lo hi ≤ hi)

module _ ⦃F : FloatOps⦄ (draw : Float → Float → Float) where
  -- Whatever the draw, jitter of a delay of at least a second that is below the cap gives a delay
  -- that is not negative and does not pass the cap.
  pub apply_bounds :
      (d : Float) (strategy : String) (prev : Option Float) (cap : Float) {r : Float}
      → FloatLaws F
      → IsUniform draw
      → float_one ≤ d
      → d ≤ cap
      → apply draw d strategy prev (some cap) ≡ ok r
      → (float_zero ≤ r) × (r ≤ cap)
  unfolding apply
  apply_bounds d strategy prev cap L u one below e =
      let half : Float = div d (lit 2 1) in
      let prior : Float = mul (or_else prev d) (lit 3 1) in
      ground (
        arith,
        L.zero-lt-one,
        u float_zero d,
        u float_zero half,
        u d prior,
        u d d,
        L.div_nonneg d (lit 2 1),
        L.lit_mono 1 1 2 1,
        L.halves d,
        L.add_mono half (draw float_zero half) half,
        L.add_grows half (draw float_zero half),
      )
