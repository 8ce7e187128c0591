-- ===== src/Adapt/Strategy/Counted.antt =====
-- The table of outcomes is a summary of the calls that made it.
use ujin.Prelude.{
  sym, length-drop, length-append, ltb→lt, ◌<◌, inr, zero, inl, ltb, suc, Bool-cases, ◌≤◌, ◌-◌,
  drop, eq_iff, not, refl, arith, length, none, some, ◌++◌, ◌↔◌, [], if◌then◌else◌, true, ◌∷◌, List,
  Option, keep_if, ◌≡◌, ℕ,
}
use mathlib.Core.Path.{subst}
use ujin.Float.{Float, FloatOps}
use ujin.Adapt.SiteStore.{p50_window}
use ujin.Adapt.Strategy.{
  Key, Outcome, Tried, same_key, find, upsert, fresh, row_or, updated, record_outcome,
}

-- The abstract store keeps every call, the latest first.
abbrev pub Log : Type 0
Log = List Tried

-- the calls about one way of fetching a host
unfoldable pub about : Key → Log → Log
about k log = keep_if (λ t. same_key t.key k) log

abbrev pub latencies : Log → List Float
latencies [] = []
latencies (t ∷ log) = latencies log ++ (t.latency ∷ [])

-- What a row says of the calls about its key: their number, how many were well and how many were not,
-- the last of them, and the latest latencies, the oldest first. A key without a row has no calls.
abbrev pub Summary : Log → Option Outcome → Type 0
Summary log none = log ≡ []
Summary log (some r) =
    (r.attempts ≡ length log)
    × (r.successes ≡ length (keep_if (λ t. t.ok) log))
    × (r.failures ≡ length (keep_if (λ t. not t.ok) log))
    × ((t : Tried) × (rest : Log) × (log ≡ t ∷ rest)
        × (r.last_latency ≡ t.latency)
        × (r.last_seen ≡ t.now))
    × (r.recent ≡ drop (length (latencies log) - p50_window) (latencies log))

same_key_iff : (a b : Key) → (same_key a b ≡ true) ↔ (a ≡ b)
unfolding same_key
same_key_iff a b =
    ground
      (arith, eq_iff a.host b.host, eq_iff a.backend b.backend, eq_iff a.render_mode b.render_mode)

find-upsert :
    (k : Key) (row : Outcome) (rows : List Outcome)
    → find k (upsert row rows) ≡ (if same_key row.key k then some row else find k rows)
unfolding find upsert
find-upsert k row [] = refl
find-upsert k row (r ∷ rows) = ground (
  arith,
  find-upsert k row rows,
  same_key_iff r.key k,
  same_key_iff r.key row.key,
  same_key_iff row.key k,
)

-- the end of a list after one more
drop_more :
    (d : ℕ) (xs : List Float) (x : Float)
    → d ≤ length xs
    → drop 1 (drop d xs ++ (x ∷ [])) ≡ drop (suc d) (xs ++ (x ∷ []))
unfolding drop
drop_more zero xs x h = refl
drop_more (suc d) [] x h = absurd (omega (arith, h))
drop_more (suc d) (y ∷ xs) x h = drop_more d xs x (omega (arith, h))

window_lem :
    (n : ℕ) (xs : List Float) (x : Float)
    → let kept : List Float = drop (length xs - n) xs in
      drop (length (kept ++ (x ∷ [])) - n) (kept ++ (x ∷ []))
      ≡ drop (length (xs ++ (x ∷ [])) - n) (xs ++ (x ∷ []))
unfolding drop
window_lem n xs x = elim (Bool-cases (ltb n (length xs))) [
  | inr short ↦ let whole : length xs - n ≡ 0 = ground arith in rw whole refl
  | inl long ↦
      let d : ℕ = length xs - n in
      let below : n < length xs = ltb→lt n (length xs) long in
      let one : length (drop d xs ++ (x ∷ [])) - n ≡ 1 =
        omega (arith, length-append (drop d xs) (x ∷ []), length-drop d xs, below) in
      let more : length (xs ++ (x ∷ [])) - n ≡ suc d =
        omega (arith, length-append xs (x ∷ []), below) in
      rw (one, more) (drop_more d xs x (omega arith))
]

module _ ⦃F : FloatOps⦄ where
  -- the store after the calls of a log
  unfoldable pub run_log : Log → List Outcome
  unfolding record_outcome
  run_log [] = []
  run_log (t ∷ log) = record_outcome t (run_log log)

  updated_lem :
      (log : Log) (t : Tried) (o : Option Outcome)
      → Summary log o
      → Summary (t ∷ log) (some (updated (row_or t.key o) t))
  unfolding updated row_or fresh keep_if
  updated_lem log t none h =
      rw h (refl, ground arith, ground arith, (t, [], refl, refl, refl), refl)
  updated_lem log t (some r) (a, s, f, l, w) = (
    omega (arith, a),
    ground arith,
    ground arith,
    (t, log, refl, refl, refl),
    rw w (window_lem p50_window (latencies log) t.latency),
  )

  -- A row holds what the calls about its key come to: how many there were, how many succeeded and how
  -- many failed, the latency and the time of the last of them, and the latest latencies; a key of which
  -- no call was recorded has no row.
  pub run_log-Summary : (k : Key) (log : Log) → Summary (about k log) (find k (run_log log))
  unfolding run_log record_outcome about find keep_if
  run_log-Summary k [] = refl
  run_log-Summary k (t ∷ log) =
      let row : Outcome = updated (row_or t.key (find t.key (run_log log))) t in
      elim (Bool-cases (same_key t.key k)) [
        | inl same ↦
            let is : t.key ≡ k = (same_key_iff t.key k).0 same in
            let step : Summary (t ∷ about k log)
                (some (updated (row_or t.key (find k (run_log log))) t)) =
              updated_lem (about k log) t (find k (run_log log)) (run_log-Summary k log) in
            rw (find-upsert k row (run_log log), same, about)
              (subst
                (λ j.
                  Summary (t ∷ about k log)
                    (some (updated (row_or t.key (find j (run_log log))) t)))
                (sym is) step)
        | inr other ↦ rw (find-upsert k row (run_log log), other, about) (run_log-Summary k log)
      ]
