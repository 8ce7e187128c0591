-- ===== src/Engine/Schedule.antt =====
-- When a target is due again.
use ujin.Prelude.{
  Bool-cases, List, Result-cases, [], arith, false, if◌then◌else◌, inl, inr, none, not, ok, raise,
  refl, some, true, ◌&&◌, ◌+◌, ◌∷◌, ◌≡◌, ◌≤◌,
}
use ujin.Adapt.Interval.{AdaptiveInterval}
use ujin.Float.{float_zero, add, float_one, FloatLaws, Float, FloatOps}
use ujin.Poll.{PollResult}
use ujin.Adapt.Interval
use ujin.Adapt.Interval.Cadence.{next-IsValid, next_keeps}
use ujin.Adapt.Backoff
use ujin.Adapt.Breaker
use ujin.Adapt.Jitter
use ujin.Adapt.Backoff.Delays.{on_failure_bounds}
use ujin.Adapt.Jitter.Spread.{IsUniform, apply_bounds}
use ujin.Adapt.SiteStore.{get}
use ujin.Adapt.Rate
use ujin.Adapt.Rate.{Limiter}
use ujin.Adapt.Rate.Governs.{interval_for-floor, observe_floors}
use ujin.Engine.{
  with_result, Target, Answer, Readings, result_of, schedule, latency_of, consult, settle, jittered,
  failed, succeeded, finish, last_or,
}

module _ ⦃F : FloatOps⦄ {P : Type 0} where
  -- `t'` is due after a delay that keeps to the floors that the limiter has for the host of `t`.
  abbrev pub IsFloored : Target P → Limiter → Readings → Target P → Type 0
  IsFloored t l at t' =
      (l.base_interval ≤ t'.last_delay)
      × ((get l.store t.host).crawl_delay ≤ t'.last_delay)
      × ((c : Float) → l.robots t.host ≡ some c → c ≤ t'.last_delay)
      × (t'.next_due ≡ add at.now t'.last_delay)

  settle-none :
      (t : Target P) (fired : List (PollResult P)) (r : PollResult P) (d : Float) (at : Readings)
      → ((settle t none fired r d at).target.last_delay ≡ d)
        × ((settle t none fired r d at).target.next_due ≡ add at.now d)
  unfolding settle schedule
  settle-none t fired r d at = (refl, refl)

  -- After a failed poll of an engine that is not adaptive, unless the delay overflows, the target is
  -- due again after a delay of at most the cap of its backoff.
  pub failed_delay :
      (draw : Float → Float → Float) (t : Target P) (a : Answer P) (at : Readings)
      → (result_of a at.wall).is_ok ≡ false
      → (finish draw t none a at).outcome ≡ ok (result_of a at.wall)
      → ((finish draw t none a at).target.last_delay ≤ t.backoff.cap)
        × ((finish draw t none a at).target.next_due
            ≡ add at.now (finish draw t none a at).target.last_delay)
  unfolding finish
  failed_delay draw t a at e fine =
      let r : PollResult P = result_of a at.wall in
      elim (Result-cases (Backoff.on_failure t.backoff r.retry_after).1) [
        | inl (x, over) ↦ let bad : raise x ≡ ok r = rw (e, over, failed) at fine in cc
        | inr (d, good) ↦
            let t' : Target P = record t {
              polls = t.polls + 1;
              breaker = Breaker.on_failure t.breaker at.seen at.stamp;
              backoff = (Backoff.on_failure t.backoff r.retry_after).0;
            } in
            let s = settle-none t' [] r d at in
            let capped = (on_failure_bounds t.backoff r.retry_after).1 d good in
            rw (e, good, failed) (ground arith, ground arith)
      ]

  -- After a successful poll of an engine that is not adaptive, of a target whose interval is valid and
  -- at least one second at its shortest, and where the jitter strategy is known, the target is due
  -- again after a delay between 0 and its longest interval, whatever a draw within its bounds gives.
  pub succeeded_delay :
      (draw : Float → Float → Float) (t : Target P) (a : Answer P) (at : Readings) {d : Float}
      → FloatLaws F
      → IsUniform draw
      → Interval.IsValid t.interval
      → float_one ≤ t.interval.min_interval
      → (result_of a at.wall).is_ok ≡ true
      → jittered draw t (result_of a at.wall) ≡ ok d
      → ((finish draw t none a at).target.last_delay ≤ t.interval.max_interval)
        × (float_zero ≤ (finish draw t none a at).target.last_delay)
        × ((finish draw t none a at).target.next_due
            ≡ add at.now (finish draw t none a at).target.last_delay)
  unfolding finish
  succeeded_delay draw t a at {d} L u v one e fine =
      let r : PollResult P = result_of a at.wall in
      let c : AdaptiveInterval = Interval.next t.interval r.changed in
      let v' = next-IsValid t.interval r.changed v in
      let same = next_keeps t.interval r.changed in
      let applied : Jitter.apply draw c.interval t.jitter (some (last_or t.last_delay c.interval))
            (some c.max_interval)
          ≡ ok d =
        unfold jittered in fine in
      let bounds =
        apply_bounds draw c.interval t.jitter (some (last_or t.last_delay c.interval))
          c.max_interval L u (omega (arith, same, v'.at_least)) v'.at_most applied in
      let s =
        settle-none (with_result t r) (if r.changed && t.has_callback then r ∷ [] else []) r d at in
      rw (e, fine, succeeded) (ground arith, ground arith, ground arith)

  consult_floor :
      (t : Target P) (l : Limiter) (r : PollResult P) (at : Readings) {l' : Limiter} {floor : Float}
      → consult t l r at ≡ ok (l', floor)
      → (l.base_interval ≤ floor)
        × ((get l.store t.host).crawl_delay ≤ floor)
        × ((c : Float) → l.robots t.host ≡ some c → c ≤ floor)
  unfolding consult
  consult_floor t l r at e =
      elim (Result-cases
        (Rate.observe l t.host r.status (latency_of r) (not r.is_ok) none at.governed at.stored)) [
          | inl (x, bad) ↦ cc (rw (bad) at e)
          | inr (told, heard) ↦
              let same =
                observe_floors l t.host r.status (latency_of r) (not r.is_ok) at.governed at.stored
                  heard in
              let low = interval_for-floor told t.host at.governed (rw heard at e) in
              (ground arith, ground arith, λ c there. ground (arith, low.2 c))
        ]

  settle_adaptive :
      (t : Target P) (l : Limiter) (fired : List (PollResult P)) (r : PollResult P) (d : Float)
      (at : Readings) {r' : PollResult P}
      → (settle t (some l) fired r d at).outcome ≡ ok r'
      → IsFloored t l at (settle t (some l) fired r d at).target
  unfolding settle schedule
  settle_adaptive t l fired r d at e = elim (Result-cases (consult t l r at)) [
    | inl (x, bad) ↦ cc (rw (bad, settle) at e)
    | inr ((l', floor), good) ↦
        let low = consult_floor t l r at good in
        rw (good, settle) (ground arith, ground arith, λ c there. ground (arith, low.2 c), refl)
  ]

  -- In an adaptive engine a poll whose update does not raise is due again no sooner than the base
  -- interval, the host's observed crawl delay and that of its robots.txt.
  pub adaptive_delay :
      (draw : Float → Float → Float) (t : Target P) (l : Limiter) (a : Answer P) (at : Readings)
      {r : PollResult P}
      → (finish draw t (some l) a at).outcome ≡ ok r
      → IsFloored t l at (finish draw t (some l) a at).target
  unfolding finish
  adaptive_delay draw t l a at e =
      let r : PollResult P = result_of a at.wall in
      elim (Bool-cases r.is_ok) [
        | inl good ↦ elim (Result-cases (jittered draw t r)) [
          | inl (x, bad) ↦ cc (rw (good, bad, succeeded) at e)
          | inr (d, fine) ↦
              rw (good, fine, succeeded)
                (settle_adaptive (with_result t r) l _ r d at (rw (good, fine, succeeded) at e))
        ]
        | inr bad ↦ elim (Result-cases (Backoff.on_failure t.backoff r.retry_after).1) [
          | inl (x, over) ↦ cc (rw (bad, over, failed) at e)
          | inr (d, fine) ↦
              rw (bad, fine, failed) (settle_adaptive _ l _ r d at (rw (bad, fine, failed) at e))
        ]
      ]
