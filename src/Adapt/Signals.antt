-- ===== src/Adapt/Signals.antt =====
-- ujin/adapt/signals.py: what the observed state of a host recommends.
pub mod Health
use ujin.Prelude.{
  ℕ, ◌+◌, min, max, Bool, true, false, ltb, ◌==◌, ◌||◌, if◌then◌else◌, Option, none, some, String,
}
use ujin.Float.{Float, FloatOps, lit, add, mul, div, float_zero, float_one}
use ujin.Adapt.SiteStore.{SiteStore, HostRecord, get}

pub record PolicySignals : Type 0 where
  pub recommended_interval : Float
  pub cooldown_secs : Float
  pub should_cooldown : Bool
  pub rate_limited : Bool
  pub concurrency_factor : Float
  pub health : Float

unfoldable pub is_rate_limited : HostRecord → Bool
is_rate_limited r = ltb 0 r.rate_limit_count || r.last_status == 429

unfoldable pub rl_events : HostRecord → ℕ
rl_events r = max r.rate_limit_count (if r.last_status == 429 then 1 else 0)

abbrev pub float_or {ℓ} : {A : Type ℓ} → Option A → A → A
float_or none d = d
float_or (some a) d = a

module _ ⦃F : FloatOps⦄ where
  unfoldable pub health_of : HostRecord → Float
  unfolding rl_events
  health_of r =
      let penalty : Float =
        add (mul (lit 1 2) (lit r.error_count 1)) (mul (lit 1 1) (lit (rl_events r) 1)) in
      div float_one (add float_one penalty)

  unfoldable pub interval_of : HostRecord → Float → Option Float → Float
  unfolding is_rate_limited rl_events
  interval_of r base_interval robots_crawl_delay =
      let base : Float = max float_zero base_interval in
      let mult : Float = min (lit 4 1) (add float_one (mul (lit 1 2) (lit (rl_events r) 1))) in
      let slowed : Float = if is_rate_limited r then max (mul base mult) (lit 1 1) else base in
      let crawl_floor : Float = max r.crawl_delay (float_or robots_crawl_delay float_zero) in
      if ltb float_zero crawl_floor then max slowed crawl_floor else slowed

  unfoldable pub cooldown_of : HostRecord → Float
  unfolding is_rate_limited
  cooldown_of r =
      let pressed : Float =
        if ltb 0 r.error_count
        then min (lit 300 1) (mul (lit 5 1) (lit r.error_count 1))
        else float_zero in
      if is_rate_limited r then max pressed (lit 30 1) else pressed

  unfoldable pub concurrency_of : HostRecord → Float
  unfolding is_rate_limited rl_events
  concurrency_of r =
      if is_rate_limited r
      then max (lit 1 4) (div float_one (add float_one (lit (rl_events r) 1)))
      else float_one

  unfoldable pub derive_signals : HostRecord → Float → Option Float → PolicySignals
  unfolding health_of interval_of cooldown_of concurrency_of
  derive_signals r base_interval robots_crawl_delay = record {
    recommended_interval = interval_of r base_interval robots_crawl_delay;
    cooldown_secs = cooldown_of r;
    should_cooldown = ltb float_zero (cooldown_of r);
    rate_limited = is_rate_limited r;
    concurrency_factor = concurrency_of r;
    health = health_of r;
  }

  -- `SignalAdvisor.for_host`: the advisor's own values stand in for arguments that are not given.
  unfoldable pub for_host :
      SiteStore → Float → Option Float → String → Option Float → Option Float → PolicySignals
  for_host store base robots host base_interval robots_crawl_delay =
      derive_signals (get store host) (float_or base_interval base)
        (elim robots_crawl_delay [ none ↦ robots | some d ↦ some d ])
