-- ===== src/Adapt/Interval.antt =====
-- ujin/adapt/interval.py: `AdaptiveInterval`, the pre-jitter interval of one target.
pub mod Cadence
use ujin.Prelude.{
  Bool, Result, if◌then◌else◌, leb, ltb, max, min, ok, require, value_error, ◌&&◌, ◌<◌, ◌>>=◌, ◌>>◌,
  ◌≤◌,
}
use ujin.Float.{Float, FloatOps, mul, float_zero, float_one}

-- `interval` is the private field `_interval`.
pub record AdaptiveInterval : Type 0 where
  pub base : Float
  pub min_interval : Float
  pub max_interval : Float
  pub grow : Float
  pub shrink : Float
  pub interval : Float

unfoldable pub clamp : AdaptiveInterval → Float → Float
clamp c v = max c.min_interval (min c.max_interval v)

abbrev pub current : AdaptiveInterval → Float
current c = c.interval

unfoldable pub reset : AdaptiveInterval → AdaptiveInterval
unfolding clamp
reset c = record c { interval = clamp c c.base }

module _ ⦃F : FloatOps⦄ where
  -- the constructor: `__post_init__` validates the fields and sets `_interval`
  unfoldable pub init : Float → Float → Float → Float → Float → Result AdaptiveInterval
  unfolding clamp reset
  init base min_interval max_interval grow shrink = do
    require (ltb float_one grow) value_error
    require (ltb float_zero shrink && ltb shrink float_one) value_error
    require (leb min_interval max_interval) value_error
    ok (
        reset (record {
          base = base;
          min_interval = min_interval;
          max_interval = max_interval;
          grow = grow;
          shrink = shrink;
          interval = base;
        }))

  -- the interval after one poll; Python returns the new `_interval`
  unfoldable pub next : AdaptiveInterval → Bool → AdaptiveInterval
  unfolding clamp
  next c changed = record c {
    interval = clamp c (mul c.interval (if changed then c.shrink else c.grow));
  }

  -- What the constructor establishes: the validated parameters, and an interval within its bounds.
  pub record IsValid (c : AdaptiveInterval) : Type 0 where
    pub grows : float_one < c.grow
    pub shrinks : float_zero < c.shrink
    pub shrinks_below : c.shrink < float_one
    pub ordered : c.min_interval ≤ c.max_interval
    pub at_least : c.min_interval ≤ c.interval
    pub at_most : c.interval ≤ c.max_interval
