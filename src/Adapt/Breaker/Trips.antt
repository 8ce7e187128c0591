-- ===== src/Adapt/Breaker/Trips.antt =====
-- When the breaker is open: the trailing failures of its history decide.
use ujin.Prelude.{
  ◌∙◌, ap, ℕ, ◌+◌, ◌<◌, ◌≡◌, ◌≢◌, refl, true, false, leb, List, [], ◌∷◌, arith, none, some,
}
use ujin.Float.{Float, FloatOps, sub}
use ujin.Adapt.Breaker.{CircuitBreaker, on_success, allow, on_failure}

-- What the engine tells a breaker: a success, or a failure with the readings of the clock.
pub data Outcome : Type 0 where
  success : Outcome
  failure : Float → Float → Outcome

-- how many failures ran since the last success, `n` of them before the list
unfoldable pub trailing : ℕ → List Outcome → ℕ
trailing n [] = n
trailing n (success ∷ rest) = trailing 0 rest
trailing n (failure _ _ ∷ rest) = trailing (n + 1) rest

module _ ⦃F : FloatOps⦄ where
  unfoldable pub run : CircuitBreaker → List Outcome → CircuitBreaker
  run b [] = b
  run b (success ∷ rest) = run (on_success b) rest
  run b (failure seen stamp ∷ rest) = run (on_failure b seen stamp) rest

  -- Tripped exactly when the failures reach the threshold.
  pub record IsConsistent (b : CircuitBreaker) : Type 0 where
    pub positive : 0 < b.threshold
    pub tripped : leb b.threshold b.failures ≡ true → b.opened_at ≢ none
    pub untripped : leb b.threshold b.failures ≡ false → b.opened_at ≡ none

  on_success-IsConsistent : (b : CircuitBreaker) → IsConsistent b → IsConsistent (on_success b)
  unfolding on_success
  on_success-IsConsistent b v = ground arith

  on_failure-IsConsistent :
      (b : CircuitBreaker) (seen stamp : Float)
      → IsConsistent b
      → IsConsistent (on_failure b seen stamp)
  unfolding on_failure
  on_failure-IsConsistent b seen stamp v = ground arith

  on_failure_counts :
      (b : CircuitBreaker) (seen stamp : Float)
      → ((on_failure b seen stamp).failures ≡ b.failures + 1)
        × ((on_failure b seen stamp).threshold ≡ b.threshold)
  unfolding on_failure
  on_failure_counts b seen stamp = ground arith

  -- After any history of polls the breaker has tripped exactly when the failures since the last
  -- success reach the threshold, and it counts just those failures. The threshold stays.
  pub run-trailing :
      (b : CircuitBreaker) (history : List Outcome)
      → IsConsistent b
      → ((run b history).failures ≡ trailing b.failures history)
        × IsConsistent (run b history)
        × ((run b history).threshold ≡ b.threshold)
  unfolding run trailing on_success
  run-trailing b [] v = (refl, v, refl)
  run-trailing b (success ∷ rest) v = run-trailing (on_success b) rest (on_success-IsConsistent b v)
  run-trailing b (failure seen stamp ∷ rest) v =
      let (counted, kept, same) =
        run-trailing (on_failure b seen stamp) rest (on_failure-IsConsistent b seen stamp v) in
      let (one_more, threshold) = on_failure_counts b seen stamp in
      (counted ∙ ap (λ n. trailing n rest) one_more, kept, same ∙ threshold)

  -- A tripped breaker refuses polls until `cooldown` has passed since it opened, and then allows a
  -- probe. If the probe fails the breaker opens anew from that failure's reading; if it succeeds
  -- polls are allowed at any time.
  pub probe_cycle :
      (b : CircuitBreaker) (since now seen stamp : Float)
      → b.opened_at ≡ some since
      → (leb b.cooldown (sub seen since) ≡ true)
      → (allow b now ≡ leb b.cooldown (sub now since))
        × (allow (on_failure b seen stamp) now ≡ leb b.cooldown (sub now stamp))
        × (allow (on_success b) now ≡ true)
  unfolding allow on_failure on_success
  probe_cycle b since now seen stamp e due = ground arith

  -- A failure inside the cooldown leaves the window where it was.
  pub failure_inside :
      (b : CircuitBreaker) (since now seen stamp : Float)
      → b.opened_at ≡ some since
      → (leb b.cooldown (sub seen since) ≡ false)
      → allow (on_failure b seen stamp) now ≡ allow b now
  unfolding allow on_failure
  failure_inside b since now seen stamp e early = ground arith
