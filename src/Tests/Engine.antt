-- ===== src/Tests/Engine.antt =====
-- The engine and its polls, over decimals with two places.
use ujin.Prelude.{
  All, List, [], arith, false, inl, leb, max, none, ok, refl, some, true, ℕ, ◌+◌, ◌-◌, ◌↔◌, ◌∷◌,
  ◌≡◌, ◌≢◌, ◌≤◌,
}
use ujin.Float.Fixed.{fixed, fixed_laws, fixed_pow}
use ujin.Poll.{PollResult, decide_changed, fingerprint_of, decide_changed_iff}
use ujin.Adapt.Interval
use ujin.Adapt.Breaker
use ujin.Adapt.Backoff
use ujin.Adapt.Jitter
use ujin.Adapt.Jitter.Spread.{IsUniform}
use ujin.Adapt.Rate.{Limiter}
use ujin.Adapt.SiteStore.{get}
use ujin.Engine.{Target, Answer, returned, raised, Readings, Polled, result_of, finish, jittered}
use ujin.Engine.Finish.{finish_failed, finish_succeeded}
use ujin.Engine.Schedule.{IsFloored, failed_delay, succeeded_delay, adaptive_delay}
use ujin.Engine.Loop.{Asked, polls, sleeps, round, is_due, is_allowed, round_lem}

-- A payload is a number here. The draw is always the upper end.
abbrev upper : ℕ → ℕ → ℕ
upper lo hi = hi

upper-IsUniform : IsUniform upper
upper-IsUniform lo hi h = omega arith

abbrev target : Target ℕ
target = record {
  interval = record {
    base = 6000;
    min_interval = 100;
    max_interval = 360000;
    grow = 160;
    shrink = 40;
    interval = 6000;
  };
  jitter = "decorrelated";
  has_callback = true;
  backoff = record { base = 100; factor = 200; cap = 360000; failures = 0 };
  breaker = record { threshold = 5; cooldown = 30000; failures = 0; opened_at = none };
  prev = none;
  next_due = 1000;
  polls = 3;
  changes = 1;
  last_delay = 0;
  host = "a.org";
}

abbrev page : PollResult ℕ
page = record {
  is_ok = true;
  changed = true;
  fingerprint = some "f2";
  payload = some 7;
  latency_ms = 30;
  status = some 200;
  error = none;
  retry_after = none;
  ts = 5;
}

abbrev at : Readings
at = record { now = 1100; seen = 1; stamp = 2; governed = 1100; stored = 1100; wall = 5 }

abbrev good : Answer ℕ
good = returned page

abbrev bad : Answer ℕ
bad = raised "TimeoutError"

changed_fingerprint :
    (decide_changed {P = ℕ} none (some page) ≡ false)
    × ((decide_changed (some "f3") (some page) ≡ true) ↔ (fingerprint_of (some page) ≢ some "f3"))
changed_fingerprint = decide_changed_iff "f3" (some page)

-- a change shortens the interval to 24 s, and the draw is three times that
good_run :
    ((finish upper target none good at).target.last_delay ≡ 7200)
    × ((finish upper target none good at).target.next_due ≡ 8300)
    × ((finish upper target none good at).fired ≡ page ∷ [])
unfolding finish jittered Jitter.apply Interval.next ujin.Engine.settle
good_run = (refl, refl, refl)

finish_failed_example :
    ((finish upper target none bad at).target.polls ≡ 3 + 1)
    × ((finish upper target none bad at).target.interval ≡ target.interval)
    × ((finish upper target none bad at).target.prev ≡ none)
    × ((finish upper target none bad at).target.changes ≡ 1)
    × ((finish upper target none bad at).target.breaker ≡ Breaker.on_failure target.breaker 1 2)
    × ((finish upper target none bad at).target.backoff.failures ≡ 0 + 1)
unfolding ujin.Poll.failure
finish_failed_example = finish_failed upper target none bad at refl

jitter_known : jittered upper target page ≡ ok 7200
unfolding jittered Jitter.apply Interval.next
jitter_known = refl

finish_succeeded_example :
    ((finish upper target none good at).target.polls ≡ 3 + 1)
    × ((finish upper target none good at).target.prev ≡ some page)
    × ((finish upper target none good at).target.interval ≡ Interval.next target.interval true)
    × ((finish upper target none good at).target.breaker.opened_at ≡ none)
    × ((finish upper target none good at).target.breaker.failures ≡ 0)
    × ((finish upper target none good at).target.backoff.failures ≡ 0)
    × ((finish upper target none good at).target.changes ≡ 1 + 1)
finish_succeeded_example = finish_succeeded upper target none good at refl jitter_known

bad_returns : (finish upper target none bad at).outcome ≡ ok (result_of bad 5)
unfolding finish Backoff.on_failure fixed_pow ujin.Poll.failure ujin.Engine.settle
bad_returns = refl

failed_delay_example :
    ((finish upper target none bad at).target.last_delay ≤ 360000)
    × ((finish upper target none bad at).target.next_due
        ≡ 1100 + (finish upper target none bad at).target.last_delay)
unfolding ujin.Poll.failure
failed_delay_example = failed_delay upper target bad at refl bad_returns

target-IsValid : Interval.IsValid target.interval
target-IsValid = omega arith

succeeded_delay_example :
    ((finish upper target none good at).target.last_delay ≤ 360000)
    × (0 ≤ (finish upper target none good at).target.last_delay)
    × ((finish upper target none good at).target.next_due
        ≡ 1100 + (finish upper target none good at).target.last_delay)
succeeded_delay_example =
    succeeded_delay upper target good at fixed_laws upper-IsUniform target-IsValid (omega arith)
      refl jitter_known

abbrev limiter : Limiter
limiter = record {
  store = [];
  robots = λ host. some 9000;
  base_interval = 0;
  max_concurrency = 8;
  max_interval = 360000;
  rl_floor = 100;
  govs = [];
}

adaptive_returns : (finish upper target (some limiter) good at).outcome ≡ ok page
unfolding finish jittered Jitter.apply Interval.next Interval.init ujin.Engine.settle
    ujin.Adapt.Rate.observe ujin.Adapt.Rate.interval_for ujin.Adapt.Rate.gov
    ujin.Adapt.Rate.effective_interval ujin.Adapt.Rate.seed ujin.Adapt.Signals.derive_signals
    ujin.Adapt.Bucket.init get ujin.Adapt.SiteStore.store_record ujin.Prelude.Dict.lookup
    ujin.Prelude.Dict.insert
adaptive_returns = refl

adaptive_delay_example :
    IsFloored target limiter at (finish upper target (some limiter) good at).target
adaptive_delay_example = adaptive_delay upper target limiter good at adaptive_returns

-- one target is due, one is not
abbrev targets : List (Asked ℕ)
targets =
    record { key = "a"; target = target; asked_at = 3 }
    ∷ record { key = "b"; target = record target { next_due = 2000 }; asked_at = 3 }
    ∷ []

round_lem_example :
    ((ready : List (Asked ℕ))
      → round 1500 targets ≡ polls ready
      → (ready ≢ []) × All (λ a. (leb a.target.next_due 1500 ≡ true) × (is_allowed a ≡ true)) ready)
    × ((s : ℕ)
        → round 1500 targets ≡ sleeps s
        → All (λ a. is_due 1500 a ≡ false) targets
          × All (λ a. s ≤ max 0 (a.target.next_due - 1500)) targets)
round_lem_example = round_lem fixed_laws 1500 targets (omega arith)

-- a target whose breaker opened at 1 s and which was due at 10 s, in the round at 15 s
abbrev tripped : Target ℕ
tripped = record target {
  breaker = record { threshold = 5; cooldown = 30000; failures = 5; opened_at = some 100 };
}

abbrev dead : List (Asked ℕ)
dead = record { key = "a"; target = tripped; asked_at = 1500 } ∷ []

dead_refused : is_allowed (record { key = "a"; target = tripped; asked_at = 1500 }) ≡ false
unfolding Breaker.allow
dead_refused = refl
