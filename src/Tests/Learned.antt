-- ===== src/Tests/Learned.antt =====
-- The observed state of hosts, its signals and the governor, over decimals with two places.
use ujin.Prelude.Dict.{insert, lookup}
use ujin.Prelude.{Option, String, [], arith, none, ok, refl, some, true, ℕ, ◌∷◌, ◌≡◌}
use ujin.Float.Fixed.{fixed}
use ujin.Adapt.SiteStore.{SiteStore, HostRecord, Row, Observed, get, store_record}
use ujin.Adapt.SiteStore.Counts.{IsBounded}
use ujin.Adapt.Signals.{derive_signals}
use ujin.Adapt.Interval
use ujin.Adapt.Interval.{AdaptiveInterval}
use ujin.Adapt.Aimd
use ujin.Adapt.Aimd.{AimdLimiter}
use ujin.Adapt.Bucket.{TokenBucket}
use ujin.Adapt.Rate
use ujin.Adapt.Rate.{Limiter, HostGov, seed, interval_for, is_429, is_error, is_clean}
use ujin.Adapt.Rate.Governs.{IsGov}

abbrev busy : HostRecord
busy = record {
  last_status = 200;
  last_latency = 20;
  p50_latency = 20;
  error_count = 2;
  rate_limit_count = 1;
  crawl_delay = 500;
  interval = 0;
  last_seen = 1000;
}

abbrev busy_row : Row
busy_row = record { seen = busy; window = 20 ∷ [] }

abbrev store : SiteStore
store = ("a.org", busy_row) ∷ []

abbrev refused : Observed
refused = record {
  status = some 429;
  latency = some 40;
  crawl_delay = none;
  interval = none;
  error = 0;
  rate_limited = 1;
}

-- two samples have the mean for a median
second_record : get (store_record store "a.org" refused 1100) "a.org" ≡ record busy {
  last_status = 429;
  last_latency = 40;
  p50_latency = 30;
  rate_limit_count = 2;
  last_seen = 1100;
}
unfolding get store_record lookup insert
second_record = refl

abbrev empty_store : SiteStore
empty_store = []

empty_store-IsBounded : IsBounded empty_store
unfolding lookup
empty_store-IsBounded = record { at_host = λ h r e. ground arith }

abbrev busier : HostRecord
busier = record busy { error_count = 9; rate_limit_count = 4 }

signals_run :
    ((derive_signals busy 100 none).recommended_interval ≡ 500)
    × ((derive_signals busy 100 none).cooldown_secs ≡ 3000)
    × ((derive_signals busy 100 none).concurrency_factor ≡ 50)
unfolding derive_signals
signals_run = (refl, refl, refl)

abbrev no_robots : String → Option ℕ
no_robots host = none

abbrev limiter : Limiter
limiter = record {
  store = store;
  robots = no_robots;
  base_interval = 0;
  max_concurrency = 8;
  max_interval = 360000;
  rl_floor = 100;
  govs = [];
}

abbrev governor : HostGov
governor = record {
  aimd = record { limit = 400; min_limit = 100; max_limit = 800; increase = 100; decrease = 50 };
  penalty = record {
    base = 500;
    min_interval = 100;
    max_interval = 360000;
    grow = 160;
    shrink = 40;
    interval = 500;
  };
  bucket = record { rate = 100; burst = 100; tokens = 100; last = 7 };
  rl_active = true;
  inflight = 0;
}

seeded : seed limiter "a.org" 7 ≡ ok governor
unfolding seed Interval.init derive_signals get lookup ujin.Adapt.Bucket.init
seeded = refl

abbrev after : Limiter
after = record limiter { govs = ("a.org", governor) ∷ [] }

asked : interval_for limiter "a.org" 7 ≡ ok (after, 500)
unfolding interval_for Rate.gov Rate.effective_interval seed Interval.init derive_signals get lookup
    insert ujin.Adapt.Bucket.init
asked = refl

-- LearnedRateLimiter(base_interval=7200), with the default maximum
abbrev slow : Limiter
slow = record limiter { base_interval = 720000; rl_floor = 720000 }

governor-IsGov : IsGov governor
governor-IsGov = record { aimd = omega arith; penalty = omega arith; positive = omega arith }

abbrev one_inside : HostGov
one_inside = record governor { inflight = 1 }
