-- ===== src/Adapt/Rate/Governs.antt =====
-- The governor of a host: its floor, how a response moves it, and its slots.
use ujin.Prelude.{
  Bool, Option, Result-cases, String, arith, false, inl, inr, max, none, ok, raise, refl, some,
  true, value_error, ℕ, ◌<◌, ◌≡◌, ◌≤◌,
}
use ujin.Adapt.Rate.{
  signals_of, Observed, observe, HostGov, Limiter, seed, gov, effective_interval, interval_for,
  is_429, is_error, is_clean, calibrate,
}
use ujin.Adapt.Interval.Cadence.{
  init-min_interval, next_keeps, init-IsValid, next-IsValid, next_moves,
}
use ujin.Float.{exact_limit, lit, mul, FloatLaws, Float, float_zero, FloatOps}
use ujin.Prelude.Dict.{lookup}
use ujin.Adapt.SiteStore.Counts.{get-store_record}
use ujin.Adapt.SiteStore.{get}
use ujin.Adapt.Interval
use ujin.Adapt.Interval.{AdaptiveInterval}
use ujin.Adapt.Aimd
use ujin.Adapt.Aimd.{AimdLimiter}
use ujin.Adapt.Aimd.Range
use ujin.Adapt.Signals.{derive_signals}
use ujin.Adapt.Signals.Health.{concurrency_range}

module _ ⦃F : FloatOps⦄ where
  -- A governor whose controllers are valid and whose requests in flight are within its range.
  pub record IsGov (g : HostGov) : Type 0 where
    pub aimd : Range.IsValid g.aimd
    pub penalty : Interval.IsValid g.penalty
    pub positive : float_zero < g.penalty.min_interval

  gov_store :
      (l : Limiter) (host : String) (now : Float) {l' : Limiter} {g : HostGov}
      → gov l host now ≡ ok (l', g)
      → (l'.store ≡ l.store) × (l'.robots ≡ l.robots) × (l'.base_interval ≡ l.base_interval)
  unfolding gov
  gov_store l host now e = ground arith

  -- The interval that is reported is never below the base, the crawl delay that was observed, or the
  -- one of robots.txt.
  pub interval_for-floor :
      (l : Limiter) (host : String) (now : Float) {l' : Limiter} {d : Float}
      → interval_for l host now ≡ ok (l', d)
      → (l.base_interval ≤ d)
        × ((get l.store host).crawl_delay ≤ d)
        × ((r : Float) → l.robots host ≡ some r → r ≤ d)
  unfolding interval_for
  interval_for-floor l host now {d = d} e = elim (Result-cases (gov l host now)) [
    | inl (error, failed) ↦ absurd (ground arith)
    | inr ((m, g), made) ↦
        let same = gov_store l host now made in
        let told : effective_interval m host g ≡ d = ground arith in
        unfold effective_interval in (ground arith, ground arith, λ r there. ground arith)
  ]

  -- A response with no crawl delay of its own leaves the floors of the interval as they were.
  pub observe_floors :
      (l : Limiter) (host : String) (status : Option ℕ) (latency : Option Float) (error : Bool)
      (now stamp : Float) {l' : Limiter}
      → observe l host status latency error none now stamp ≡ ok l'
      → (l'.base_interval ≡ l.base_interval)
        × (l'.robots ≡ l.robots)
        × ((get l'.store host).crawl_delay ≡ (get l.store host).crawl_delay)
  unfolding observe
  observe_floors l host status latency error now stamp e = elim (Result-cases (gov l host now)) [
    | inl (err, failed) ↦ absurd (ground arith)
    | inr ((m, g), made) ↦
        let same = gov_store l host now made in
        let o : Observed = signals_of status latency error none in
        let kept = (get-store_record m.store host host o stamp).4 refl in
        (ground arith, ground arith, ground arith)
  ]

  -- Where the base interval is above the maximum, a host that has no governor never gets one.
  pub interval_for-raises :
      (l : Limiter) (host : String) (now : Float)
      → l.max_interval < l.rl_floor
      → lookup host l.govs ≡ none
      → interval_for l host now ≡ raise value_error
  unfolding interval_for gov seed Interval.init
  interval_for-raises l host now h e = ground arith

module _ ⦃F : FloatOps⦄ (L : FloatLaws F) where
  -- What one response does to a valid governor. A 429 marks the host as rate limited, does not
  -- shorten the learned interval and does not raise the concurrency. Any other error does not raise
  -- the concurrency and leaves the interval and the mark alone. A clean response does not lower the
  -- concurrency; it does not lengthen the interval of a rate limited host, and leaves that of
  -- another alone. The governor stays valid.
  pub calibrate_lem :
      (g : HostGov) (rl_floor : Float) (status : Option ℕ) (error : Bool)
      → IsGov g
      → IsGov (calibrate rl_floor g status error)
        × (is_429 status ≡ true
            → ((calibrate rl_floor g status error).rl_active ≡ true)
              × (g.penalty.interval ≤ (calibrate rl_floor g status error).penalty.interval)
              × (Aimd.value (calibrate rl_floor g status error).aimd ≤ Aimd.value g.aimd))
        × (is_429 status ≡ false
            → is_error status error ≡ true
            → ((calibrate rl_floor g status error).rl_active ≡ g.rl_active)
              × ((calibrate rl_floor g status error).penalty ≡ g.penalty)
              × (Aimd.value (calibrate rl_floor g status error).aimd ≤ Aimd.value g.aimd))
        × (is_clean status error ≡ true
            → ((calibrate rl_floor g status error).penalty.interval ≤ g.penalty.interval)
              × (g.rl_active ≡ false → (calibrate rl_floor g status error).penalty ≡ g.penalty)
              × (Aimd.value g.aimd ≤ Aimd.value (calibrate rl_floor g status error).aimd))
  unfolding calibrate
  calibrate_lem g rl_floor status error v =
      let fb = Range.feedback g.aimd L v.aimd in
      let up = next-IsValid g.penalty false v.penalty in
      let down = next-IsValid g.penalty true v.penalty in
      let p : float_zero < g.penalty.interval = omega (arith, v.positive, v.penalty.at_least) in
      let moves = next_moves L g.penalty v.penalty p in
      let keeps = next_keeps g.penalty false in
      let keeps' = next_keeps g.penalty true in
      (
        record { aimd = ground arith; penalty = ground arith; positive = ground arith },
        λ a. ground arith,
        λ a b. ground arith,
        λ a. ground arith,
      )

  -- A governor that is made for a host, by a limiter whose largest concurrency is at least one and a
  -- double, is valid and has nothing in flight.
  pub seed-IsGov :
      (l : Limiter) (host : String) (now : Float) {g : HostGov}
      → 1 ≤ l.max_concurrency
      → l.max_concurrency ≤ exact_limit
      → float_zero < l.rl_floor
      → seed l host now ≡ ok g
      → IsGov g × (g.inflight ≡ 0) × (Aimd.value g.aimd ≤ l.max_concurrency)
  unfolding seed
  seed-IsGov l host now {g = g} many bounded p e =
      let sig = derive_signals (get l.store host) l.base_interval (l.robots host) in
      let factor : Float = sig.concurrency_factor in
      let start : Float = max l.rl_floor sig.recommended_interval in
      let n : ℕ = max 1 (F.nearest (mul (lit l.max_concurrency 1) factor)) in
      let range = concurrency_range L (get l.store host) l.base_interval (l.robots host) in
      let some_factor = L.lit_pos 1 4 (omega arith) (omega arith) in
      let all = L.lit_mono 0 1 l.max_concurrency 1 (omega arith) (omega arith) (omega arith) in
      let fits = L.mul_shrinks (lit l.max_concurrency 1) factor all (omega arith) range.1 in
      let few : F.nearest (mul (lit l.max_concurrency 1) factor) ≤ l.max_concurrency =
        omega (arith, L.nearest_mono _ _ fits, L.nearest_lit l.max_concurrency bounded) in
      elim (Result-cases (Interval.init start l.rl_floor l.max_interval (lit 16 10) (lit 4 10))) [
        | inl (error, failed) ↦ absurd (ground arith)
        | inr (c, made) ↦
            let good = init-IsValid start l.rl_floor l.max_interval (lit 16 10) (lit 4 10) made in
            let lowest : c.min_interval ≡ l.rl_floor =
              init-min_interval start l.rl_floor l.max_interval (lit 16 10) (lit 4 10) made in
            unfold Aimd.value in
            (
              record {
                aimd = ground (
                  arith,
                  L.zero-lt-one,
                  L.lit_mono 1 1 n 1,
                  L.lit_mono n 1 l.max_concurrency 1,
                  L.lit_pos 1 2,
                  L.lit_mono 1 2 1 1,
                );
                penalty = ground arith;
                positive = ground arith;
              },
              ground arith,
              ground (arith, L.trunc_lit n (omega (arith, few, many, bounded))),
            )
      ]
