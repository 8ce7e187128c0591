-- ===== src/Adapt/Interval/Cadence.antt =====
-- How the interval moves: it stays within its bounds, backs off while nothing changes and tightens
-- on a change.
use ujin.Prelude.{Bool, arith, false, ok, refl, suc, true, zero, ℕ, ◌+◌, ◌<◌, ◌≡◌, ◌≤◌}
use ujin.Float.{Float, FloatOps, FloatLaws, mul, float_zero}
use ujin.Adapt.Interval.{AdaptiveInterval, clamp, init, next, reset, IsValid}

module _ ⦃F : FloatOps⦄ where
  -- A target that is built has validated parameters and an interval between its bounds; a poll,
  -- whatever it saw, and a reset keep that and leave the parameters alone.
  pub init-IsValid :
      (base lo hi grow shrink : Float) {c : AdaptiveInterval}
      → init base lo hi grow shrink ≡ ok c
      → IsValid c
  unfolding init
  init-IsValid base lo hi grow shrink e = ground arith

  pub init-min_interval :
      (base lo hi grow shrink : Float) {c : AdaptiveInterval}
      → init base lo hi grow shrink ≡ ok c
      → c.min_interval ≡ lo
  unfolding init
  init-min_interval base lo hi grow shrink e = ground arith

  pub next-IsValid : (c : AdaptiveInterval) (changed : Bool) → IsValid c → IsValid (next c changed)
  unfolding next
  next-IsValid c changed v = ground arith

  pub reset-IsValid : (c : AdaptiveInterval) → IsValid c → IsValid (reset c)
  unfolding reset
  reset-IsValid c v = ground arith

  pub next_keeps :
      (c : AdaptiveInterval) (changed : Bool)
      → ((next c changed).min_interval ≡ c.min_interval)
        × ((next c changed).max_interval ≡ c.max_interval)
  unfolding next
  next_keeps c changed = (refl, refl)

  -- n polls in a row that saw no change
  unfoldable pub idle : ℕ → AdaptiveInterval → AdaptiveInterval
  idle zero c = c
  idle (suc n) c = idle n (next c false)

  module _ (L : FloatLaws F) where
    -- An unchanged poll never shortens a positive interval, a change never lengthens it.
    pub next_moves :
        (c : AdaptiveInterval)
        → IsValid c
        → float_zero < c.interval
        → (c.interval ≤ (next c false).interval) × ((next c true).interval ≤ c.interval)
    unfolding next
    next_moves c v p =
        ground (arith, L.mul_grows c.interval c.grow, L.mul_shrinks c.interval c.shrink)

  module _ (c₀ : AdaptiveInterval)
      (climbs : (v : Float) → c₀.min_interval ≤ v → v ≤ c₀.max_interval → v < mul v c₀.grow) where
    idle_climbs :
        (n : ℕ) (c : AdaptiveInterval)
        → IsValid c
        → c.grow ≡ c₀.grow
        → c.min_interval ≡ c₀.min_interval
        → c.max_interval ≡ c₀.max_interval
        → c.max_interval ≤ c.interval + n
        → (idle n c).interval ≡ c.max_interval
    unfolding idle next
    idle_climbs zero c v g l h near = omega (arith, v.at_most)
    idle_climbs (suc n) c v g l h near =
        idle_climbs n (next c false) (next-IsValid c false v) g l h
          (unfold clamp in ground (arith, climbs c.interval))

  -- Where growth makes each interval within the bounds longer, a target that stops changing
  -- reaches its longest interval, after no more unchanged polls than there are floats between, and
  -- stays there.
  pub idle-settles :
      (c : AdaptiveInterval) (n : ℕ)
      → IsValid c
      → ((v : Float) → c.min_interval ≤ v → v ≤ c.max_interval → v < mul v c.grow)
      → c.max_interval ≤ c.interval + n
      → (idle n c).interval ≡ c.max_interval
  idle-settles c n v climbs near = idle_climbs c climbs n c v refl refl refl near
