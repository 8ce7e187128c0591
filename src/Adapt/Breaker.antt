-- ===== src/Adapt/Breaker.antt =====
-- ujin/adapt/backoff.py: `CircuitBreaker`. Each reading of the clock that a method takes is an
-- argument of it, in the order of the readings.
pub mod Trips
use ujin.Prelude.{ℕ, ◌+◌, Bool, true, false, leb, ◌&&◌, if◌then◌else◌, Option, none, some}
use ujin.Float.{Float, FloatOps, sub}

-- `failures` and `opened_at` are the private fields.
pub record CircuitBreaker : Type 0 where
  pub threshold : ℕ
  pub cooldown : Float
  pub failures : ℕ
  pub opened_at : Option Float

-- The strings that `state` returns.
pub data Circuit : Type 0 where
  closed opened half_open : Circuit

abbrev pub is_none {ℓ} : {A : Type ℓ} → Option A → Bool
is_none none = true
is_none (some a) = false

abbrev pub is_half_open : Circuit → Bool
is_half_open Circuit.half_open = true
is_half_open _ = false

-- `state != "open"`
abbrev pub is_not_open : Circuit → Bool
is_not_open Circuit.opened = false
is_not_open _ = true

unfoldable pub on_success : CircuitBreaker → CircuitBreaker
on_success b = record b { failures = 0; opened_at = none }

module _ ⦃F : FloatOps⦄ where
  unfoldable pub state : CircuitBreaker → Float → Circuit
  state b now = elim b.opened_at [
    | none ↦ Circuit.closed
    | some since ↦ if leb b.cooldown (sub now since) then Circuit.half_open else Circuit.opened
  ]

  -- whether a poll should be attempted now
  unfoldable pub allow : CircuitBreaker → Float → Bool
  unfolding state
  allow b now = is_not_open (state b now)

  -- `seen` is what the test of the state reads, `stamp` what the opening time is set to
  unfoldable pub on_failure : CircuitBreaker → Float → Float → CircuitBreaker
  unfolding state
  on_failure b seen stamp =
      let b' : CircuitBreaker = record b { failures = b.failures + 1 } in
      if leb b'.threshold b'.failures && is_none b'.opened_at
      then record b' { opened_at = some stamp }
      else if is_half_open (state b' seen)
      then record b' { opened_at = some stamp }
      else b'
