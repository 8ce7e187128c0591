-- ===== src/Adapt/Jitter.antt =====
-- ujin/adapt/jitter.py. `draw lo hi` stands for `rng.uniform(lo, hi)`.
pub mod Spread
use ujin.Prelude.{
  Option, Result, String, if◌then◌else◌, max, min, none, ok, raise, some, str_eq, value_error, ◌||◌,
}
use ujin.Float.{Float, FloatOps, lit, add, mul, div, float_zero}

abbrev pub or_else {ℓ} : {A : Type ℓ} → Option A → A → A
or_else none d = d
or_else (some a) d = a

module _ ⦃F : FloatOps⦄ (draw : Float → Float → Float) where
  unfoldable pub full : Float → Float
  full d = draw float_zero (max float_zero d)

  unfoldable pub equal : Float → Float
  equal d = let half : Float = div (max float_zero d) (lit 2 1) in add half (draw float_zero half)

  unfoldable pub decorrelated : Float → Float → Float → Float
  decorrelated base prev cap = min cap (draw base (max base (mul prev (lit 3 1))))

  unfoldable pub phase : Float → Float
  phase d = draw float_zero (max float_zero d)

  unfoldable pub apply : Float → String → Option Float → Option Float → Result Float
  unfolding full equal decorrelated
  apply d strategy prev cap =
      if str_eq strategy "full"
      then ok (full d)
      else if str_eq strategy "equal"
      then ok (equal d)
      else if str_eq strategy "decorrelated"
      then ok (decorrelated d (or_else prev d) (or_else cap (mul d (lit 4 1))))
      else if str_eq strategy "none" || str_eq strategy "off"
      then ok d
      else raise value_error
