-- ===== src/Engine.antt =====
-- ujin/engine.py: `PollEngine`. One poll of a target is `poll_once`, in two parts: what happens when
-- the path is disallowed, and what happens to the target once the poll has answered (`finish`). Each
-- reading of a clock is a field of `Readings`; `draw` stands for `rng.uniform`.
pub mod Finish
pub mod Schedule
pub mod Loop
use ujin.Prelude.{
  Bool, List, Option, Result, String, [], false, if◌then◌else◌, ltb, max, none, not, ok, raise,
  some, true, ℕ, ◌&&◌, ◌+◌, ◌==◌, ◌>>=◌, ◌∷◌,
}
use ujin.Float.{lit, div, float_zero, add, Float, FloatOps}
use ujin.Poll.{PollResult, failure}
use ujin.Adapt.Interval
use ujin.Adapt.Interval.{AdaptiveInterval}
use ujin.Adapt.Backoff
use ujin.Adapt.Backoff.{Backoff}
use ujin.Adapt.Breaker
use ujin.Adapt.Breaker.{CircuitBreaker}
use ujin.Adapt.Jitter
use ujin.Adapt.Rate
use ujin.Adapt.Rate.{Limiter}

pub record Target (P : Type 0) : Type 0 where
  pub interval : AdaptiveInterval
  pub jitter : String
  pub has_callback : Bool
  pub backoff : Backoff
  pub breaker : CircuitBreaker
  pub prev : Option (PollResult P)
  pub next_due : Float
  pub polls : ℕ
  pub changes : ℕ
  pub last_delay : Float
  pub host : String

-- What a pollable does: it returns a result, or raises.
pub data Answer (P : Type 0) : Type 0 where
  returned : PollResult P → Answer P
  raised : String → Answer P

-- The readings that one poll takes: of the engine's clock after the poll, of the breaker's clock
-- (two), of the limiter's clock by a new governor and by the store, and of the wall clock.
pub record Readings : Type 0 where
  pub now : Float
  pub seen : Float
  pub stamp : Float
  pub governed : Float
  pub stored : Float
  pub wall : Float

-- What a poll leaves behind. `fired` are the results that `on_change` was called with; `outcome` is
-- what `poll_once` returns or raises.
pub record Polled (P : Type 0) : Type 0 where
  pub target : Target P
  pub limiter : Option Limiter
  pub fired : List (PollResult P)
  pub outcome : Result (PollResult P)

abbrev pub result_of : {P : Type 0} → Answer P → Float → PollResult P
result_of (returned r) wall = r
result_of (raised e) wall = failure e wall

-- `target.last_delay or base`
last_or : ⦃F : FloatOps⦄ → Float → Float → Float
last_or last base = if last == float_zero then base else last

module _ ⦃F : FloatOps⦄ {P : Type 0} where
  -- the early return of `poll_once` for a path that robots.txt disallows
  unfoldable pub skip : Target P → Float → Float → Target P × PollResult P
  skip t now wall = (
    record t {
      polls = t.polls + 1;
      last_delay = t.interval.interval;
      next_due = add now t.interval.interval;
    },
    record {
      is_ok = true;
      changed = false;
      fingerprint = none;
      payload = none;
      latency_ms = 0;
      status = none;
      error = none;
      retry_after = none;
      ts = wall;
    },
  )

  schedule : Target P → Float → Float → Target P
  schedule t delay now = record t { last_delay = delay; next_due = add now delay }

  latency_of : PollResult P → Option Float
  latency_of r = if ltb 0 r.latency_ms then some (div (lit r.latency_ms 1) (lit 1000 1)) else none

  -- the limiter is told of the response, and asked for the interval of the host
  unfoldable pub consult : Target P → Limiter → PollResult P → Readings → Result (Limiter × Float)
  unfolding latency_of
  consult t l r at = do
    told ← Rate.observe l t.host r.status (latency_of r) (not r.is_ok) none at.governed at.stored
    Rate.interval_for told t.host at.governed

  -- the last part: the limiter is told of the response, and its interval floors the delay
  unfoldable pub settle :
      Target P → Option Limiter → List (PollResult P) → PollResult P → Float → Readings → Polled P
  unfolding schedule consult
  settle t none fired r delay at = record {
    target = schedule t delay at.now;
    limiter = none;
    fired = fired;
    outcome = ok r;
  }
  settle t (some l) fired r delay at = elim (consult t l r at) [
    | raise e ↦ record { target = t; limiter = some l; fired = fired; outcome = raise e }
    | ok (l', floor) ↦ record {
      target = schedule t (max delay floor) at.now;
      limiter = some l';
      fired = fired;
      outcome = ok r;
    }
  ]

  unfoldable pub failed : Target P → Option Limiter → PollResult P → Readings → Polled P
  failed t l r at =
      let (backoff, delay) = Backoff.on_failure t.backoff r.retry_after in
      let t' : Target P = record t {
        polls = t.polls + 1;
        breaker = Breaker.on_failure t.breaker at.seen at.stamp;
        backoff = backoff;
      } in
      elim delay [
        | raise e ↦ record { target = t'; limiter = l; fired = []; outcome = raise e }
        | ok d ↦ settle t' l [] r d at
      ]

  -- the jittered delay after a successful poll
  unfoldable pub jittered : (Float → Float → Float) → Target P → PollResult P → Result Float
  unfolding last_or
  jittered draw t r =
      let interval : AdaptiveInterval = Interval.next t.interval r.changed in
      let base : Float = interval.interval in
      Jitter.apply draw base t.jitter (some (last_or t.last_delay base))
        (some interval.max_interval)

  -- the target after a successful poll, before it is scheduled
  abbrev pub with_result : Target P → PollResult P → Target P
  with_result t r = record t {
    polls = t.polls + 1;
    backoff = Backoff.on_success t.backoff;
    breaker = Breaker.on_success t.breaker;
    interval = Interval.next t.interval r.changed;
    changes = if r.changed then t.changes + 1 else t.changes;
    prev = some r;
  }

  unfoldable pub succeeded :
      (Float → Float → Float) → Target P → Option Limiter → PollResult P → Readings → Polled P
  succeeded draw t l r at =
      let interval : AdaptiveInterval = Interval.next t.interval r.changed in
      let t' : Target P = record t {
        polls = t.polls + 1;
        backoff = Backoff.on_success t.backoff;
        breaker = Breaker.on_success t.breaker;
        interval = interval;
      } in
      elim (jittered draw t r) [
        | raise e ↦ record { target = t'; limiter = l; fired = []; outcome = raise e }
        | ok d ↦
            settle (with_result t r) l (if r.changed && t.has_callback then r ∷ [] else []) r d at
      ]

  -- `poll_once` from the answer of the pollable on
  unfoldable pub finish :
      (Float → Float → Float) → Target P → Option Limiter → Answer P → Readings → Polled P
  unfolding failed succeeded
  finish draw t l answer at =
      let r : PollResult P = result_of answer at.wall in
      if r.is_ok then succeeded draw t l r at else failed t l r at
