-- ===== src/Tests/Adapt.antt =====
-- The controllers, over decimals with two places.
use ujin.Prelude.{
  List, [], arith, false, leb, none, ok, overflow_error, raise, refl, some, true, ℕ, ◌*◌, ◌-◌, ◌/◌,
  ◌<◌, ◌∷◌, ◌≡◌, ◌≤◌,
}
use ujin.Float.Fixed.{fixed, fixed_laws, fixed_pow}
use ujin.Adapt.Interval
use ujin.Adapt.Interval.{AdaptiveInterval}
use ujin.Adapt.Backoff
use ujin.Adapt.Backoff.{Backoff}
use ujin.Adapt.Backoff.Delays.{fails}
use ujin.Adapt.Breaker
use ujin.Adapt.Breaker.{CircuitBreaker}
use ujin.Adapt.Breaker.Trips.{Outcome, success, failure, run, trailing, IsConsistent, run-trailing}
use ujin.Adapt.Bucket.{TokenBucket, refill, take}
use ujin.Adapt.Bucket.Tokens
use ujin.Adapt.Bucket.Tokens.{take_lem, acquire-returns, acquire-starves}
use ujin.Adapt.Aimd.{AimdLimiter}
use ujin.Adapt.Aimd.Range
use ujin.Adapt.Jitter
use ujin.Adapt.Jitter.Spread.{IsUniform}

-- AdaptiveInterval(base=60)
abbrev minute : AdaptiveInterval
minute = record {
  base = 6000;
  min_interval = 100;
  max_interval = 360000;
  grow = 160;
  shrink = 40;
  interval = 6000;
}

minute_built : Interval.init 6000 100 360000 160 40 ≡ ok minute
unfolding Interval.init
minute_built = refl

grow_then_shrink :
    ((Interval.next minute false).interval ≡ 9600) × ((Interval.next minute true).interval ≡ 2400)
unfolding Interval.next
grow_then_shrink = (refl, refl)

minute-IsValid : Interval.IsValid minute
minute-IsValid = omega arith

climbs : (v : ℕ) → 100 ≤ v → v ≤ 360000 → v < v * 160 / 100
climbs v h k = omega arith

-- Backoff()
abbrev patient : Backoff
patient = record { base = 100; factor = 200; cap = 360000; failures = 0 }

third_delay : (Backoff.on_failure (record patient { failures = 2 }) none).1 ≡ ok 400
unfolding Backoff.on_failure fixed_pow
third_delay = refl

first_delay : (Backoff.on_failure patient none).1 ≡ ok 100
unfolding Backoff.on_failure fixed_pow
first_delay = refl

fourth_delay : (Backoff.on_failure (fails 3 patient) none).1 ≡ ok 800
unfolding Backoff.on_failure fixed_pow fails
fourth_delay = refl

abbrev worn : Backoff
worn = record patient { failures = 1024 }

worn_raises : (Backoff.on_failure worn none).1 ≡ raise overflow_error
unfolding Backoff.on_failure fixed_pow
worn_raises = refl

-- CircuitBreaker(threshold=2)
abbrev fresh : CircuitBreaker
fresh = record { threshold = 2; cooldown = 30000; failures = 0; opened_at = none }

abbrev history : List Outcome
history = failure 1 2 ∷ success ∷ failure 3 4 ∷ failure 5 6 ∷ []

trips_at_six : (run fresh history).opened_at ≡ some 6
unfolding run Breaker.on_failure Breaker.on_success
trips_at_six = refl

fresh-IsConsistent : IsConsistent fresh
fresh-IsConsistent = record { positive = omega arith; tripped = λ e. cc; untripped = λ e. refl }

run-trailing_example :
    ((run fresh history).failures ≡ trailing 0 history)
    × IsConsistent (run fresh history)
    × ((run fresh history).threshold ≡ 2)
run-trailing_example = run-trailing fresh history fresh-IsConsistent

abbrev tripped : CircuitBreaker
tripped = record fresh { failures = 2; opened_at = some 600 }

-- TokenBucket(rate=10, burst=10)
abbrev bucket : TokenBucket
bucket = record { rate = 1000; burst = 1000; tokens = 50; last = 200 }

bucket-IsValid : Tokens.IsValid bucket
bucket-IsValid = omega arith

take_lem_example :
    Tokens.IsValid (take bucket 100 205).0
    × ((take bucket 100 205).1 ≡ leb 100 (refill bucket 205).tokens)
    × ((take bucket 100 205).1 ≡ true
        → (take bucket 100 205).0.tokens ≡ (refill bucket 205).tokens - 100)
    × ((take bucket 100 205).1 ≡ false → (take bucket 100 205).0 ≡ refill bucket 205)
take_lem_example = take_lem fixed_laws bucket 100 205 bucket-IsValid (omega arith) (omega arith)

covered : 100 ≤ (refill bucket 205).tokens
unfolding refill
covered = omega arith

abbrev small : TokenBucket
small = record bucket { burst = 50 }

-- AIMDLimiter()
abbrev limiter : AimdLimiter
limiter = record { limit = 400; min_limit = 100; max_limit = 6400; increase = 100; decrease = 50 }

limiter-IsValid : Range.IsValid limiter
limiter-IsValid = omega arith

-- a generator that always draws the upper end
abbrev upper : ℕ → ℕ → ℕ
upper lo hi = hi

upper-IsUniform : IsUniform upper
upper-IsUniform lo hi h = omega arith

jitter_runs : Jitter.apply upper 6000 "decorrelated" (some 6000) (some 10000) ≡ ok 10000
unfolding Jitter.apply
jitter_runs = refl
