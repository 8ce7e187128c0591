-- ===== src/Adapt/Backoff/Delays.antt =====
-- The delays that a run of failures asks for.
use ujin.Prelude.{
  Option, Option-cases, arith, inl, inr, max, min, none, ok, refl, some, suc, sym, zero, ℕ, ◌+◌,
  ◌-◌, ◌<◌, ◌∙◌, ◌≡◌, ◌≤◌,
}
use ujin.Float.{Float, FloatOps, FloatLaws, float_zero, float_one, pow}
use ujin.Adapt.Backoff.{Backoff, on_failure, capped_power}

module _ ⦃F : FloatOps⦄ where
  -- A failure is counted whether or not its delay can be computed; no delay passes the cap; and a
  -- wait that the provider names is followed up to the cap, however many failures there were.
  pub on_failure_bounds :
      (b : Backoff) (hint : Option Float)
      → ((on_failure b hint).0.failures ≡ b.failures + 1)
        × ((d : Float) → (on_failure b hint).1 ≡ ok d → d ≤ b.cap)
        × ((r : Float) → hint ≡ some r → (on_failure b hint).1 ≡ ok (min b.cap (max float_zero r)))
  unfolding on_failure
  on_failure_bounds b none = (refl, λ d e. ground arith, λ r e. ground arith)
  on_failure_bounds b (some r) = (refl, λ d e. ground arith, λ r' e. ground arith)

  -- k failures in a row that name no wait
  unfoldable pub fails : ℕ → Backoff → Backoff
  fails zero b = b
  fails (suc k) b = (on_failure (fails k b) none).0

  fails_lem : (k : ℕ) (b : Backoff) → fails k b ≡ record b { failures = b.failures + k }
  unfolding fails on_failure
  fails_lem zero b = ground arith
  fails_lem (suc k) b = ground (arith, fails_lem k b)

  delay_after :
      (b : Backoff) (k : ℕ) → (on_failure (fails k b) none).1 ≡ capped_power b (b.failures + k)
  unfolding on_failure
  delay_after b k =
      let e : b.failures + k + 1 - 1 ≡ b.failures + k = omega arith in
      rw (fails_lem k b) (rw (e, capped_power))

  delay_now : (b : Backoff) → (on_failure b none).1 ≡ capped_power b b.failures
  unfolding on_failure
  delay_now b = let e : b.failures + 1 - 1 ≡ b.failures = omega arith in rw (e, capped_power)

  module _ (L : FloatLaws F) where
    capped_power_mono :
        (b : Backoff) (m n : ℕ) {d d' : Float}
        → float_one ≤ b.factor
        → float_zero < b.base
        → m ≤ n
        → capped_power b m ≡ ok d
        → capped_power b n ≡ ok d'
        → d ≤ d'
    unfolding capped_power
    capped_power_mono b m n f p h e e' = elim (Option-cases (pow b.factor m)) [
      | inl over ↦ absurd (ground arith)
      | inr (x, at_m) ↦ elim (Option-cases (pow b.factor n)) [
        | inl over ↦ absurd (ground arith)
        | inr (y, at_n) ↦ ground (
          arith,
          L.pow_mono b.factor m n f h at_m at_n,
          L.pow_nonneg b.factor m f at_m,
          L.mul_mono x y b.base,
          L.mul_comm b.base x,
          L.mul_comm b.base y,
        )
      ]
    ]

    -- After more failures in a row the delay is no shorter, where both can be computed.
    pub delays_grow :
        (b : Backoff) (k : ℕ) {d d' : Float}
        → float_one ≤ b.factor
        → float_zero < b.base
        → (on_failure b none).1 ≡ ok d
        → (on_failure (fails k b) none).1 ≡ ok d'
        → d ≤ d'
    delays_grow b k f p e e' =
        capped_power_mono b b.failures (b.failures + k) f p (omega arith) (sym (delay_now b) ∙ e)
          (sym (delay_after b k) ∙ e')
