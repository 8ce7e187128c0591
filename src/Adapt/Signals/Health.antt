-- ===== src/Adapt/Signals/Health.antt =====
-- What the signals promise: a floor under the interval, a pristine clean host, and pressure that
-- grows with failures.
use ujin.Float.{div, Float, FloatOps, FloatLaws, lit, mul, add, float_zero, float_one}
use ujin.Adapt.Signals.{
  cooldown_of, concurrency_of, is_rate_limited, health_of, rl_events, derive_signals,
}
use ujin.Prelude.{Option, arith, false, ltb, min, some, true, ℕ, ◌*◌, ◌<◌, ◌||◌, ◌≡◌, ◌≤◌}
use ujin.Adapt.SiteStore.{HostRecord}

module _ ⦃F : FloatOps⦄ (L : FloatLaws F) where
  scaled_mono :
      (a b m n : ℕ)
      → 0 < b
      → b ≤ 100 * a
      → m ≤ n
      → mul (lit a b) (lit m 1) ≤ mul (lit a b) (lit n 1)
  scaled_mono a b m n h k le = ground (
    arith,
    L.lit_mono 0 1 m 1,
    L.lit_mono m 1 n 1,
    L.lit_pos a b,
    L.mul_mono (lit m 1) (lit n 1) (lit a b),
    L.mul_comm (lit a b) (lit m 1),
    L.mul_comm (lit a b) (lit n 1),
  )

module _ ⦃F : FloatOps⦄ (L : FloatLaws F) (r : HostRecord) (base : Float)
    (robots : Option Float) where
  -- the slowdown of a rate limited host is at least 1
  mult_at_least : float_one ≤ min (lit 4 1) (add float_one (mul (lit 1 2) (lit (rl_events r) 1)))
  mult_at_least =
      let n : Float = lit (rl_events r) 1 in
      ground (
        arith,
        L.lit_mono 1 1 4 1,
        L.zero-lt-one,
        L.lit_mono 0 1 (rl_events r) 1,
        L.lit_pos 1 2,
        L.mul_nonneg n (lit 1 2),
        L.mul_comm (lit 1 2) n,
        L.add_grows float_one (mul (lit 1 2) n),
      )

  -- The recommended interval is never below the base, and never below a crawl delay, observed or
  -- from robots.txt, that is positive. A rate limited host is asked at most once a second.
  pub interval_floor :
      float_zero < base
      → (base ≤ (derive_signals r base robots).recommended_interval)
        × (float_zero < r.crawl_delay
            → r.crawl_delay ≤ (derive_signals r base robots).recommended_interval)
        × ((d : Float)
            → robots ≡ some d
            → float_zero < d
            → d ≤ (derive_signals r base robots).recommended_interval)
        × ((derive_signals r base robots).rate_limited ≡ true
            → float_one ≤ (derive_signals r base robots).recommended_interval)
  unfolding derive_signals
  interval_floor p =
      let m : Float = min (lit 4 1) (add float_one (mul (lit 1 2) (lit (rl_events r) 1))) in
      unfold rl_events is_rate_limited in
      (
        ground (arith, mult_at_least, L.mul_grows base m),
        λ q. ground arith,
        λ d e q. ground arith,
        λ e. ground arith,
      )

  penalty_nonneg :
      float_zero ≤ add (mul (lit 1 2) (lit r.error_count 1)) (mul (lit 1 1) (lit (rl_events r) 1))
  penalty_nonneg =
      let e : Float = lit r.error_count 1 in
      let n : Float = lit (rl_events r) 1 in
      ground (
        arith,
        L.zero-lt-one,
        L.lit_mono 0 1 (rl_events r) 1,
        L.lit_mono 0 1 r.error_count 1,
        L.lit_pos 1 2,
        L.mul_nonneg e (lit 1 2),
        L.mul_comm (lit 1 2) e,
        L.mul_nonneg n (lit 1 1),
        L.mul_comm (lit 1 1) n,
        L.add_grows (mul (lit 1 2) e) (mul (lit 1 1) n),
      )

  -- A host with no errors and no 429 is pristine: full health and concurrency, and no
  -- cooldown. Health is never above that of such a host,
  -- nor negative, and a host has a cooldown exactly when there was an error or a 429.
  pub pristine :
      float_zero ≤ base
      → ((r.error_count ≡ 0)
          → is_rate_limited r ≡ false
          → ((derive_signals r base robots).health ≡ float_one)
            × ((derive_signals r base robots).concurrency_factor ≡ float_one)
            × ((derive_signals r base robots).should_cooldown ≡ false))
        × (float_zero ≤ (derive_signals r base robots).health)
        × ((derive_signals r base robots).health ≤ float_one)
        × ((derive_signals r base robots).should_cooldown
            ≡ (ltb 0 r.error_count || is_rate_limited r))
  unfolding derive_signals
  pristine p =
      let e : Float = mul (lit 1 2) (lit r.error_count 1) in
      let n : Float = mul (lit 1 1) (lit (rl_events r) 1) in
      let c : ℕ = r.error_count in
      unfold health_of rl_events concurrency_of cooldown_of is_rate_limited in
      (
        λ clean quiet. (
          ground (
            arith,
            L.mul_zero 1 2,
            L.mul_zero 1 1,
            L.add_zero float_zero,
            L.add_zero float_one,
            L.div_one float_one,
          ),
          ground arith,
          ground (arith, L.zero-lt-one),
        ),
        ground (
          arith,
          penalty_nonneg,
          L.zero-lt-one,
          L.add_grows float_one (add e n),
          L.div_nonneg float_one (add float_one (add e n)),
        ),
        ground (
          arith,
          penalty_nonneg,
          L.zero-lt-one,
          L.add_grows float_one (add e n),
          L.div_one float_one,
          L.div_anti float_one float_one (add float_one (add e n)),
        ),
        ground (
          arith,
          L.lit_pos 300 1,
          L.lit_pos 30 1,
          L.lit_pos 5 1,
          scaled_mono L 5 1 1 c,
          L.mul_grows (lit 5 1) (lit 1 1),
        ),
      )

module _ ⦃F : FloatOps⦄ (L : FloatLaws F) where
  abbrev penalty : ℕ → ℕ → Float
  penalty errors events = add (mul (lit 1 2) (lit errors 1)) (mul (lit 1 1) (lit events 1))

  penalty_mono :
      (e n e' n' : ℕ) → e ≤ e' → n ≤ n' → (float_zero ≤ penalty e n) × (penalty e n ≤ penalty e' n')
  penalty_mono e n e' n' h k =
      let E : ℕ → Float = λ i. mul (lit 1 2) (lit i 1) in
      let N : ℕ → Float = λ i. mul (lit 1 1) (lit i 1) in
      ground (
        arith,
        scaled_mono L 1 2 0 e,
        scaled_mono L 1 1 0 n,
        scaled_mono L 1 2 e e',
        scaled_mono L 1 1 n n',
        L.mul_zero 1 2,
        L.mul_zero 1 1,
        L.add_grows (E e) (N n),
        L.add_mono (E e) (N n) (N n'),
        L.add_comm (E e) (N n'),
        L.add_comm (E e') (N n'),
        L.add_mono (N n') (E e) (E e'),
      )

  health_mono :
      (p q : Float)
      → float_zero ≤ p
      → p ≤ q
      → div float_one (add float_one q) ≤ div float_one (add float_one p)
  health_mono p q h k = ground (
    arith,
    L.zero-lt-one,
    L.add_grows float_one p,
    L.add_mono float_one p q,
    L.div_anti float_one (add float_one p) (add float_one q),
  )

  -- More errors and more 429s never make a host look healthier, cool down for less time or take more
  -- requests at once.
  pub pressure :
      (r r' : HostRecord) (base : Float) (robots : Option Float)
      → r.error_count ≤ r'.error_count
      → r.rate_limit_count ≤ r'.rate_limit_count
      → r.last_status ≡ r'.last_status
      → ((derive_signals r' base robots).health ≤ (derive_signals r base robots).health)
        × ((derive_signals r base robots).cooldown_secs
            ≤ (derive_signals r' base robots).cooldown_secs)
        × ((derive_signals r' base robots).concurrency_factor
            ≤ (derive_signals r base robots).concurrency_factor)
  unfolding derive_signals
  pressure r r' base robots h k e =
      let a : ℕ = rl_events r in
      let b : ℕ = rl_events r' in
      let below : a ≤ b = unfold rl_events in ground arith in
      unfold health_of cooldown_of concurrency_of is_rate_limited in
      (
        ground (
          arith,
          penalty_mono r.error_count a r'.error_count b,
          health_mono (penalty r.error_count a) (penalty r'.error_count b),
        ),
        ground (
          arith,
          scaled_mono L 5 1 r.error_count r'.error_count,
          scaled_mono L 5 1 0 r.error_count,
          L.mul_zero 5 1,
          L.lit_pos 300 1,
          L.lit_pos 30 1,
          scaled_mono L 5 1 0 r'.error_count,
        ),
        ground (
          arith,
          health_mono (lit a 1) (lit b 1),
          L.lit_mono 0 1 a 1,
          L.lit_mono a 1 b 1,
          L.lit_mono 0 1 b 1,
          health_mono float_zero (lit b 1),
          L.add_zero float_one,
          L.div_one float_one,
          L.lit_mono 1 4 1 1,
        ),
      )

  pub concurrency_range :
      (r : HostRecord) (base : Float) (robots : Option Float)
      → (lit 1 4 ≤ (derive_signals r base robots).concurrency_factor)
        × ((derive_signals r base robots).concurrency_factor ≤ float_one)
  unfolding derive_signals
  concurrency_range r base robots =
      let n : ℕ = rl_events r in
      unfold concurrency_of in
      ground (
        arith,
        L.lit_mono 1 4 1 1,
        L.zero-lt-one,
        L.lit_mono 0 1 n 1,
        health_mono float_zero (lit n 1),
        L.add_zero float_one,
        L.div_one float_one,
      )
