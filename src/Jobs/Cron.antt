-- ===== src/Jobs/Cron.antt =====
-- ujin/jobs/cron.py: `CronExpr`, once its five fields are read. A naive local time is known by its whole
-- minute on the wall clock, counted from some start; what the calendar and the time zone say of a minute
-- is a parameter.
pub mod Next
use ujin.Float.{Float}
use ujin.Prelude.{
  ◌>>=◌, Bool, List, Result, [], false, if◌then◌else◌, ok, raise, suc, true, value_error, zero, ℕ,
  ◌%◌, ◌&&◌, ◌+◌, ◌==◌, ◌||◌, ◌∷◌,
}

-- The attributes of Python's `datetime` that the code reads. `local` is the whole minute of
-- `fromtimestamp`, and `timestamp` that of a naive time, whose `fold` is 0 once a minute was added.
pub record Calendar : Type 0 where
  pub month : ℕ → ℕ
  pub day : ℕ → ℕ
  pub weekday : ℕ → ℕ
  pub hour : ℕ → ℕ
  pub minute : ℕ → ℕ
  pub local : Float → ℕ
  pub timestamp : ℕ → Float

-- the sets are lists
pub record CronExpr : Type 0 where
  pub minute : List ℕ
  pub hour : List ℕ
  pub dom : List ℕ
  pub month : List ℕ
  pub dow : List ℕ
  pub dom_restricted : Bool
  pub dow_restricted : Bool

unfoldable pub contains : ℕ → List ℕ → Bool
contains v [] = false
contains v (x ∷ xs) = if x == v then true else contains v xs

unfoldable pub day_ok : Calendar → CronExpr → ℕ → Bool
unfolding contains
day_ok c x dt =
    let dom_match : Bool = contains (c.day dt) x.dom in
    let dow_match : Bool = contains ((c.weekday dt + 1) % 7) x.dow in
    if x.dom_restricted
    then (if x.dow_restricted then dom_match || dow_match else dom_match)
    else (if x.dow_restricted then dow_match else true)

unfoldable pub fires : Calendar → CronExpr → ℕ → Bool
unfolding day_ok contains
fires c x dt =
    contains (c.month dt) x.month
    && (day_ok c x dt && (contains (c.hour dt) x.hour && contains (c.minute dt) x.minute))

-- the loop, whose rounds are bounded
unfoldable pub search_from : (ℕ → Bool) → ℕ → ℕ → Result ℕ
search_from hits zero dt = raise value_error
search_from hits (suc rounds) dt =
    let later : Result ℕ = search_from hits rounds (dt + 1) in if hits dt then ok dt else later

-- 366 * 4 * 24 * 60
abbrev pub horizon : ℕ
horizon = 2108160

unfoldable pub next_after : Calendar → CronExpr → Float → Result Float
next_after c x ts = search_from (fires c x) horizon (c.local ts + 1) >>= λ dt. ok (c.timestamp dt)
