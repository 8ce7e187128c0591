-- ===== src/Adapt/Strategy.antt =====
-- ujin/adapt/strategy.py: `StrategyFeedback`, how each way of fetching a host has turned out. The table
-- of the database is its rows, of which no two have one key; a transaction is one step on it.
pub mod Counted
pub mod Best
use ujin.Prelude.{
  ◌+◌, ◌-◌, false, length, ◌&&◌, ◌||◌, keep_if, ltb, none, some, str_eq, true, ◌++◌, ◌==◌, ◌∷◌,
  Bool, List, Option, String, [], drop, if◌then◌else◌, ℕ,
}
use ujin.Float.{Float, FloatOps, lit, div, float_zero}
use ujin.Adapt.SiteStore.{HostRecord, median, p50_window}
use ujin.Adapt.Signals.{PolicySignals, derive_signals}
use Prim.Native.Nat.{Ordering}
use Prim.Native.String.{compare as compare_str}

pub record Key : Type 0 where
  pub host : String
  pub backend : String
  pub render_mode : String

-- `StrategyOutcome`, with the window of latencies that the row keeps
pub record Outcome : Type 0 where
  pub key : Key
  pub attempts : ℕ
  pub successes : ℕ
  pub failures : ℕ
  pub p50_latency : Float
  pub last_latency : Float
  pub last_seen : Float
  pub recent : List Float

-- the arguments of a call of `record`, and the clock's reading
pub record Tried : Type 0 where
  pub key : Key
  pub ok : Bool
  pub latency : Float
  pub now : Float

unfoldable pub same_key : Key → Key → Bool
same_key a b =
    str_eq a.host b.host && (str_eq a.backend b.backend && str_eq a.render_mode b.render_mode)

-- SELECT … WHERE host = ? AND backend = ? AND render_mode = ?
unfoldable pub find : Key → List Outcome → Option Outcome
find k [] = none
find k (r ∷ rows) = if same_key r.key k then some r else find k rows

-- INSERT … ON CONFLICT DO UPDATE
unfoldable pub upsert : Outcome → List Outcome → List Outcome
upsert row [] = row ∷ []
upsert row (r ∷ rows) = if same_key r.key row.key then row ∷ rows else r ∷ upsert row rows

name_before : String → String → Bool
name_before a b = elim (compare_str a b) [
  | Ordering.lt ↦ true
  | Ordering.eq ↦ false
  | Ordering.gt ↦ false
]

unfoldable pub of_host : String → List Outcome → List Outcome
of_host host rows = keep_if (λ r. str_eq r.key.host host) rows

module _ ⦃F : FloatOps⦄ where
  unfoldable pub fresh : Key → Outcome
  fresh k = record {
    key = k;
    attempts = 0;
    successes = 0;
    failures = 0;
    p50_latency = float_zero;
    last_latency = float_zero;
    last_seen = float_zero;
    recent = [];
  }

  row_or : Key → Option Outcome → Outcome
  unfolding fresh
  row_or k none = fresh k
  row_or k (some r) = r

  unfoldable pub updated : Outcome → Tried → Outcome
  unfolding median drop
  updated r t =
      let longer : List Float = r.recent ++ (t.latency ∷ []) in
      let window : List Float = drop (length longer - p50_window) longer in
      record {
        key = t.key;
        attempts = r.attempts + 1;
        successes = if t.ok then r.successes + 1 else r.successes;
        failures = if t.ok then r.failures else r.failures + 1;
        p50_latency = median window;
        last_latency = t.latency;
        last_seen = t.now;
        recent = window;
      }

  unfoldable pub record_outcome : Tried → List Outcome → List Outcome
  unfolding row_or updated upsert find
  record_outcome t rows = upsert (updated (row_or t.key (find t.key rows)) t) rows

  unfoldable pub rate : Outcome → Float
  rate r = if r.attempts == 0 then float_zero else div (lit r.successes 1) (lit r.attempts 1)

  -- the order of the ways of fetching of one host: by rate and by attempts, the largest first, then by
  -- name; a way that is not before another stays behind it
  unfoldable pub before : Outcome → Outcome → Bool
  unfolding rate name_before
  before r s =
      ltb (rate s) (rate r)
      || (rate s == rate r)
        && (ltb s.attempts r.attempts
            || (s.attempts == r.attempts)
              && (name_before r.key.backend s.key.backend
                  || str_eq r.key.backend s.key.backend
                    && name_before r.key.render_mode s.key.render_mode))

  -- the first of the sorted rows
  unfoldable pub first_of : Outcome → List Outcome → Outcome
  unfolding before
  first_of r [] = r
  first_of r (s ∷ rows) = first_of (if before s r then s else r) rows

  pick : List Outcome → Option (String × String)
  unfolding first_of
  pick [] = none
  pick (r ∷ rows) =
      let best : Outcome = first_of r rows in some (best.key.backend, best.key.render_mode)

  unfoldable pub recommend : String → List Outcome → Option (String × String)
  unfolding pick of_host
  recommend host rows = pick (of_host host rows)

  unfoldable pub is_penalized : HostRecord → Float → Bool
  unfolding derive_signals
  is_penalized r interval =
      let signals : PolicySignals = derive_signals r interval none in
      signals.rate_limited || ltb signals.health (lit 1 2)
