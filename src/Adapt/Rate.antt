-- ===== src/Adapt/Rate.antt =====
-- ujin/adapt/rate.py: `LearnedRateLimiter`, the governor that keeps a learned interval and a
-- concurrency limit for each host.
pub mod Governs
pub mod Slots
use ujin.Float.{div, lit, add, float_zero, mul, Float, FloatOps}
use ujin.Prelude.{
  Bool, List, Option, Result, String, [], false, if◌then◌else◌, leb, ltb, max, none, not, ok, some,
  true, ℕ, ◌&&◌, ◌+◌, ◌-◌, ◌==◌, ◌>>=◌, ◌||◌,
}
use ujin.Prelude.Dict.{insert, lookup, Dict}
use ujin.Adapt.SiteStore.{SiteStore, HostRecord, Observed, get, store_record}
use ujin.Adapt.Signals.{PolicySignals, derive_signals, float_or}
use ujin.Adapt.Interval
use ujin.Adapt.Interval.{AdaptiveInterval}
use ujin.Adapt.Aimd
use ujin.Adapt.Aimd.{AimdLimiter}
use ujin.Adapt.Bucket
use ujin.Adapt.Bucket.{TokenBucket}

-- `_HostGov`
pub record HostGov : Type 0 where
  pub aimd : AimdLimiter
  pub penalty : AdaptiveInterval
  pub bucket : TokenBucket
  pub rl_active : Bool
  pub inflight : ℕ

-- `robots` is what the adapter's `crawl_delay` answers for a host; one that raises, or that is not
-- there, answers `none`.
pub record Limiter : Type 0 where
  pub store : SiteStore
  pub robots : String → Option Float
  pub base_interval : Float
  pub max_concurrency : ℕ
  pub max_interval : Float
  pub rl_floor : Float
  pub govs : Dict HostGov

module _ ⦃F : FloatOps⦄ where
  unfoldable pub init : SiteStore → (String → Option Float) → Float → ℕ → Float → Limiter
  init store robots base_interval max_concurrency max_interval =
      let base : Float = max float_zero base_interval in
      record {
        store = store;
        robots = robots;
        base_interval = base;
        max_concurrency = max 1 max_concurrency;
        max_interval = max_interval;
        rl_floor = max base (lit 1 1);
        govs = [];
      }

  unfoldable pub crawl_floor : Limiter → String → Float
  crawl_floor l host = max (get l.store host).crawl_delay (float_or (l.robots host) float_zero)

  -- the controllers of a host that has none yet, seeded from the store
  unfoldable pub seed : Limiter → String → Float → Result HostGov
  seed l host now =
      let sig : PolicySignals = derive_signals (get l.store host) l.base_interval (l.robots host) in
      let seed_interval : Float = max l.rl_floor sig.recommended_interval in
      let limit : ℕ = max 1 (F.nearest (mul (lit l.max_concurrency 1) sig.concurrency_factor)) in
      do
        penalty ← Interval.init seed_interval l.rl_floor l.max_interval (lit 16 10) (lit 4 10)
        bucket ← Bucket.init (lit 1 1) (lit 1 1) now
        ok (record {
          aimd = record {
            limit = lit limit 1;
            min_limit = lit 1 1;
            max_limit = lit l.max_concurrency 1;
            increase = lit 1 1;
            decrease = lit 1 2;
          };
          penalty = penalty;
          bucket = bucket;
          rl_active = sig.rate_limited;
          inflight = 0;
        })

  -- `_gov`: the host's controllers, made and kept on first use
  unfoldable pub gov : Limiter → String → Float → Result (Limiter × HostGov)
  gov l host now = elim (lookup host l.govs) [
    | some g ↦ ok (l, g)
    | none ↦ do g ← seed l host now; ok (record l { govs = insert host g l.govs }, g)
  ]

  -- `interval_for`, once the controllers are at hand
  unfoldable pub effective_interval : Limiter → String → HostGov → Float
  unfolding crawl_floor
  effective_interval l host g =
      let floor : Float = max l.base_interval (crawl_floor l host) in
      if g.rl_active then max g.penalty.interval floor else floor

  unfoldable pub interval_for : Limiter → String → Float → Result (Limiter × Float)
  interval_for l host now = do (l', g) ← gov l host now; ok (l', effective_interval l' host g)

  -- What the response to a request says: `error`, and the status where there was one.
  abbrev pub is_429 : Option ℕ → Bool
  is_429 none = false
  is_429 (some s) = s == 429

  abbrev pub is_error : Option ℕ → Bool → Bool
  is_error none error = error
  is_error (some s) error = error || leb 500 s

  abbrev pub is_clean : Option ℕ → Bool → Bool
  is_clean none error = not error
  is_clean (some s) error = not error && (leb 200 s && ltb s 400)

  abbrev pub count_if : Bool → ℕ
  count_if true = 1
  count_if false = 0

  unfoldable pub signals_of : Option ℕ → Option Float → Bool → Option Float → Observed
  signals_of status latency error crawl_delay = record {
    status = status;
    latency = latency;
    crawl_delay = crawl_delay;
    interval = none;
    error = count_if (not (is_429 status) && is_error status error);
    rate_limited = count_if (is_429 status);
  }

  -- the live controllers after one response
  unfoldable pub calibrate : Float → HostGov → Option ℕ → Bool → HostGov
  calibrate rl_floor g status error =
      let relaxed : AdaptiveInterval = Interval.next g.penalty true in
      if is_429 status
      then record g {
        aimd = Aimd.on_failure g.aimd;
        penalty = Interval.next g.penalty false;
        rl_active = true;
      }
      else if is_error status error
      then record g { aimd = Aimd.on_failure g.aimd }
      else if is_clean status error
      then if g.rl_active
        then record g {
          aimd = Aimd.on_success g.aimd;
          penalty = relaxed;
          rl_active = not (leb relaxed.interval (add rl_floor (lit 1 1_000_000_000)));
        }
        else record g { aimd = Aimd.on_success g.aimd }
      else g

  -- `now` is read by the bucket of a new governor, `stamp` by the store
  unfoldable pub observe :
      Limiter
      → String
      → Option ℕ
      → Option Float
      → Bool
      → Option Float
      → Float
      → Float
      → Result Limiter
  unfolding signals_of calibrate
  observe l host status latency error crawl_delay now stamp = do
    (l', g) ← gov l host now
    ok (record l' {
      store = store_record l'.store host (signals_of status latency error crawl_delay) stamp;
      govs = insert host (calibrate l'.rl_floor g status error) l'.govs;
    })

  -- The slot part of `_gate_enter`: `none` while the host is at its cap and the request waits.
  unfoldable pub take_slot : HostGov → Option HostGov
  take_slot g =
      if leb (Aimd.value g.aimd) g.inflight
      then none
      else some (record g { inflight = g.inflight + 1 })

  unfoldable pub release_slot : HostGov → HostGov
  release_slot g = if ltb 0 g.inflight then record g { inflight = g.inflight - 1 } else g

  -- The pacing part of `_gate_enter`: the bucket's rate follows the interval, and one token is taken.
  -- `none` while the loop of the bucket has not returned.
  unfoldable pub pace : HostGov → Float → List (Float × Float) → Option HostGov
  pace g interval readings =
      let paced : TokenBucket =
        let b : TokenBucket = g.bucket in record b { rate = div (lit 1 1) interval } in
      if ltb float_zero interval
      then elim (Bucket.acquire paced (lit 1 1) readings) [
        | none ↦ none
        | some b ↦ some (record g { bucket = b })
      ]
      else some g
