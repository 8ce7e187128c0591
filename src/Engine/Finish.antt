-- ===== src/Engine/Finish.antt =====
-- What one poll does to its target, on every path.
use ujin.Prelude.{
  List, Option, Result-cases, [], ap, arith, false, if◌then◌else◌, inl, inr, none, ok, refl, some,
  true, ◌&&◌, ◌+◌, ◌∙◌, ◌∷◌, ◌≡◌,
}
use ujin.Float.{Float, FloatOps}
use ujin.Poll.{PollResult}
use ujin.Adapt.Interval
use ujin.Adapt.Backoff
use ujin.Adapt.Backoff.Delays.{on_failure_bounds}
use ujin.Adapt.Breaker
use ujin.Adapt.Rate.{Limiter}
use ujin.Engine.{
  with_result, Target, Answer, Readings, result_of, schedule, consult, settle, failed, succeeded,
  jittered, finish,
}

module _ ⦃F : FloatOps⦄ {P : Type 0} where
  settle_keeps :
      (t : Target P) (l : Option Limiter) (fired : List (PollResult P)) (r : PollResult P)
      (d : Float) (at : Readings)
      → ((settle t l fired r d at).target.polls ≡ t.polls)
        × ((settle t l fired r d at).target.changes ≡ t.changes)
        × ((settle t l fired r d at).target.prev ≡ t.prev)
        × ((settle t l fired r d at).target.interval ≡ t.interval)
        × ((settle t l fired r d at).target.breaker ≡ t.breaker)
        × ((settle t l fired r d at).target.backoff ≡ t.backoff)
  unfolding settle schedule
  settle_keeps t none fired r d at = (refl, refl, refl, refl, refl, refl)
  settle_keeps t (some l) fired r d at = elim (Result-cases (consult t l r at)) [
    | inl (e, failure) ↦ ground arith
    | inr (told, success) ↦ ground arith
  ]

  failed_lem :
      (t : Target P) (l : Option Limiter) (r : PollResult P) (at : Readings)
      → ((failed t l r at).target.polls ≡ t.polls + 1)
        × ((failed t l r at).target.interval ≡ t.interval)
        × ((failed t l r at).target.prev ≡ t.prev)
        × ((failed t l r at).target.changes ≡ t.changes)
        × ((failed t l r at).target.breaker ≡ Breaker.on_failure t.breaker at.seen at.stamp)
        × ((failed t l r at).target.backoff.failures ≡ t.backoff.failures + 1)
  unfolding failed
  failed_lem t l r at =
      let counted = (on_failure_bounds t.backoff r.retry_after).0 in
      elim (Result-cases (Backoff.on_failure t.backoff r.retry_after).1) [
        | inl (e, over) ↦ ground arith
        | inr (d, fine) ↦
            let t' : Target P = record t {
              polls = t.polls + 1;
              breaker = Breaker.on_failure t.breaker at.seen at.stamp;
              backoff = (Backoff.on_failure t.backoff r.retry_after).0;
            } in
            let k = settle_keeps t' l [] r d at in
            rw (fine, failed) (k.0, k.3, k.2, k.1, k.4, ap (λ b. b.failures) k.5 ∙ counted)
      ]

  -- A failed poll is counted, by the target, the breaker and the backoff, whether or not the update
  -- of the target raises. It moves neither the interval nor the last good result, and counts no
  -- change.
  pub finish_failed :
      (draw : Float → Float → Float) (t : Target P) (l : Option Limiter) (a : Answer P)
      (at : Readings)
      → (result_of a at.wall).is_ok ≡ false
      → ((finish draw t l a at).target.polls ≡ t.polls + 1)
        × ((finish draw t l a at).target.interval ≡ t.interval)
        × ((finish draw t l a at).target.prev ≡ t.prev)
        × ((finish draw t l a at).target.changes ≡ t.changes)
        × ((finish draw t l a at).target.breaker ≡ Breaker.on_failure t.breaker at.seen at.stamp)
        × ((finish draw t l a at).target.backoff.failures ≡ t.backoff.failures + 1)
  unfolding finish
  finish_failed draw t l a at e =
      let r : PollResult P = result_of a at.wall in rw e (failed_lem t l r at)

  -- A successful poll whose jitter strategy is known keeps the result for the next poll, closes the
  -- breaker and clears both counts of failures, moves the interval by whether there was a change, and
  -- counts the change.
  pub finish_succeeded :
      (draw : Float → Float → Float) (t : Target P) (l : Option Limiter) (a : Answer P)
      (at : Readings)
      → (result_of a at.wall).is_ok ≡ true
      → {d : Float} → jittered draw t (result_of a at.wall) ≡ ok d
      → ((finish draw t l a at).target.polls ≡ t.polls + 1)
        × ((finish draw t l a at).target.prev ≡ some (result_of a at.wall))
        × ((finish draw t l a at).target.interval
            ≡ Interval.next t.interval (result_of a at.wall).changed)
        × ((finish draw t l a at).target.breaker.opened_at ≡ none)
        × ((finish draw t l a at).target.breaker.failures ≡ 0)
        × ((finish draw t l a at).target.backoff.failures ≡ 0)
        × ((finish draw t l a at).target.changes
            ≡ (if (result_of a at.wall).changed then t.changes + 1 else t.changes))
  unfolding finish succeeded
  finish_succeeded draw t l a at e {d} fine =
      let r : PollResult P = result_of a at.wall in
      let k =
        settle_keeps (with_result t r) l (if r.changed && t.has_callback then r ∷ [] else []) r d
          at in
      unfold Breaker.on_success Backoff.on_success in
      rw (e, fine, succeeded)
        (
          k.0,
          k.2,
          k.3,
          ap (λ b. b.opened_at) k.4,
          ap (λ b. b.failures) k.4,
          ap (λ b. b.failures) k.5,
          k.1,
        )
