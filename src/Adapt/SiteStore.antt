-- ===== src/Adapt/SiteStore.antt =====
-- ujin/adapt/site_store.py: `SiteStore`, the observed state of each host. The table of the database
-- is a dictionary from hosts to rows, and a transaction is one step on it.
pub mod Counts
use ujin.Prelude.{
  ℕ, zero, suc, ◌+◌, ◌-◌, ◌/◌, ◌%◌, leb, ◌==◌, if◌then◌else◌, Option, none, some, List, [], ◌∷◌,
  ◌++◌, String, length, get_elem?, drop,
}
use ujin.Prelude.Dict.{Dict, lookup, insert}
use ujin.Float.{Float, FloatOps, lit, add, div, float_zero}

-- `HostRecord`, less its `host`
pub record HostRecord : Type 0 where
  pub last_status : ℕ
  pub last_latency : Float
  pub p50_latency : Float
  pub error_count : ℕ
  pub rate_limit_count : ℕ
  pub crawl_delay : Float
  pub interval : Float
  pub last_seen : Float

-- a row of `site_state`: the record, and the decoded `recent_latencies`
pub record Row : Type 0 where
  pub seen : HostRecord
  pub window : List Float

abbrev pub SiteStore : Type 0
SiteStore = Dict Row

-- The keyword arguments of `record`; one that is not given is `none`.
pub record Observed : Type 0 where
  pub status : Option ℕ
  pub latency : Option Float
  pub crawl_delay : Option Float
  pub interval : Option Float
  pub error : ℕ
  pub rate_limited : ℕ

abbrev nothing : Observed
nothing = record {
  status = none;
  latency = none;
  crawl_delay = none;
  interval = none;
  error = 0;
  rate_limited = 0;
}

abbrev pub p50_window : ℕ
p50_window = 128

-- `statistics.median`: the middle of the sorted sample, or the mean of the two in the middle
unfoldable pub insert_sorted : Float → List Float → List Float
insert_sorted x [] = x ∷ []
insert_sorted x (y ∷ ys) = if leb x y then x ∷ y ∷ ys else y ∷ insert_sorted x ys

unfoldable pub sorted : List Float → List Float
unfolding insert_sorted
sorted [] = []
sorted (x ∷ xs) = insert_sorted x (sorted xs)

abbrev given {ℓ} : {A : Type ℓ} → Option A → A → A
given none old = old
given (some new) old = new

module _ ⦃F : FloatOps⦄ where
  abbrev pub at_or_zero : List Float → ℕ → Float
  at_or_zero xs i = given (get_elem? xs i) float_zero

  unfoldable pub median : List Float → Float
  unfolding sorted
  median xs =
      let s : List Float = sorted xs in
      let n : ℕ = length xs in
      if n % 2 == 1
      then at_or_zero s (n / 2)
      else div (add (at_or_zero s (n / 2 - 1)) (at_or_zero s (n / 2))) (lit 2 1)

  unfoldable pub zero_record : HostRecord
  zero_record = record {
    last_status = 0;
    last_latency = float_zero;
    p50_latency = float_zero;
    error_count = 0;
    rate_limit_count = 0;
    crawl_delay = float_zero;
    interval = float_zero;
    last_seen = float_zero;
  }

  row_of : Option Row → Row
  row_of none = record { seen = zero_record; window = [] }
  row_of (some r) = r

  record_of : Option Row → HostRecord
  record_of none = zero_record
  record_of (some r) = r.seen

  unfoldable pub get : SiteStore → String → HostRecord
  unfolding record_of zero_record
  get s host = record_of (lookup host s)

  -- the window after `append` and `del window[:-_P50_WINDOW]`, with the latencies of the row
  unfoldable pub note_latency : Row → Option Float → Row
  unfolding median drop
  note_latency r none = r
  note_latency r (some x) =
      let longer : List Float = r.window ++ x ∷ [] in
      let w : List Float = drop (length longer - p50_window) longer in
      let old : HostRecord = r.seen in
      record { seen = record old { last_latency = x; p50_latency = median w }; window = w }

  -- one read-modify-write of a row, stamped with the clock's reading
  unfoldable pub observe_row : Row → Observed → Float → Row
  unfolding note_latency
  observe_row r o now =
      let timed : Row = note_latency r o.latency in
      let old : HostRecord = timed.seen in
      record {
        seen = record old {
          last_status = given o.status old.last_status;
          crawl_delay = given o.crawl_delay old.crawl_delay;
          interval = given o.interval old.interval;
          error_count = old.error_count + o.error;
          rate_limit_count = old.rate_limit_count + o.rate_limited;
          last_seen = now;
        };
        window = timed.window;
      }

  unfoldable pub store_record : SiteStore → String → Observed → Float → SiteStore
  unfolding observe_row row_of zero_record
  store_record s host o now = insert host (observe_row (row_of (lookup host s)) o now) s
