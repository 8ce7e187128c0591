-- ===== src/Jobs/Cron/Next.antt =====
-- When a cron job runs next.
use ujin.Prelude.{
  ◌⊎◌, Bool, Bool-cases, Error, arith, false, inl, inr, ok, raise, suc, true, value_error, zero, ℕ,
  ◌+◌, ◌<◌, ◌≡◌, ◌≤◌, ap, refl, sym, ◌∙◌, ◌>>=◌, Result,
}
use native.Mathlib.Decide.{dec_le}
use ujin.Float.{Float}
use ujin.Jobs.Cron.{Calendar, CronExpr, fires, search_from, horizon, next_after}

abbrev pub Skips : (ℕ → Bool) → ℕ → ℕ → Type 0
Skips hits from to = (k : ℕ) → from ≤ k → k < to → hits k ≡ false

extend :
    (hits : ℕ → Bool) (from to : ℕ)
    → hits from ≡ false
    → Skips hits (from + 1) to
    → Skips hits from to
extend hits from to quiet later k h l = elim (dec_le (from + 1) k) [
  | yes after ↦ later k after l
  | no at ↦ let e : k ≡ from = omega arith in rw e quiet
]

found :
    (hits : ℕ → Bool) (rounds dt m : ℕ)
    → search_from hits rounds dt ≡ ok m
    → (dt ≤ m) × (hits m ≡ true) × Skips hits dt m
unfolding search_from
found hits zero dt m e = cc
found hits (suc rounds) dt m e = elim (Bool-cases (hits dt)) [
  | inl hit ↦
      let same : dt ≡ m = cc (rw (hit, search_from) at e) in
      (omega arith, rw same at hit, λ k h l. absurd (omega arith))
  | inr quiet ↦
      let (after, hit, quiet_till) = found hits rounds (dt + 1) m (rw (quiet, search_from) at e) in
      (omega arith, hit, extend hits dt m quiet quiet_till)
]

not_found :
    (hits : ℕ → Bool) (rounds dt : ℕ) (err : Error)
    → search_from hits rounds dt ≡ raise err
    → (err ≡ value_error) × Skips hits dt (dt + rounds)
unfolding search_from
not_found hits zero dt err e = (cc, λ k h l. absurd (omega arith))
not_found hits (suc rounds) dt err e = elim (Bool-cases (hits dt)) [
  | inl hit ↦ cc (rw (hit, search_from) at e)
  | inr quiet ↦
      let (kind, quiet_till) = not_found hits rounds (dt + 1) err (rw (quiet, search_from) at e) in
      let reach : dt + 1 + rounds ≡ dt + suc rounds = omega arith in
      (kind, extend hits dt (dt + suc rounds) quiet (rw reach at quiet_till))
]

at_once :
    (hits : ℕ → Bool) (rounds dt : ℕ) → hits dt ≡ true → search_from hits (suc rounds) dt ≡ ok dt
unfolding search_from
at_once hits rounds dt hit = rw (hit, search_from) refl

after_found :
    (c : Calendar) (x : CronExpr) (ts r : Float) (searched : Result ℕ)
    → search_from (fires c x) horizon (c.local ts + 1) ≡ searched
    → searched >>= (λ dt. ok (c.timestamp dt)) ≡ ok r
    → (m : ℕ) × (c.timestamp m ≡ r)
      × (c.local ts < m)
      × (fires c x m ≡ true)
      × ((k : ℕ) → c.local ts < k → k < m → fires c x k ≡ false)
after_found c x ts r (raise err) e h = cc
after_found c x ts r (ok m) e h =
    let (after, hit, quiet) = found (fires c x) horizon (c.local ts + 1) m e in
    (m, cc, omega arith, hit, λ k p l. quiet k (omega arith) l)

after_none :
    (c : Calendar) (x : CronExpr) (ts : Float) (err : Error) (searched : Result ℕ)
    → search_from (fires c x) horizon (c.local ts + 1) ≡ searched
    → searched >>= (λ dt. ok (c.timestamp dt)) ≡ raise err
    → (err ≡ value_error)
      × ((k : ℕ) → c.local ts < k → k ≤ c.local ts + horizon → fires c x k ≡ false)
after_none c x ts err (ok m) e h = cc
after_none c x ts err (raise err') e h =
    let (kind, quiet) = not_found (fires c x) horizon (c.local ts + 1) err' e in
    let same : err' ≡ err = cc in (sym same ∙ kind, λ k p l. quiet k (omega arith) (omega arith))

-- The time that is given back is the timestamp of the first minute of the wall clock after that of `ts`
-- at which the expression matches. It is an error only if no minute of the next four years of 366 days
-- matches.
pub next_after_lem :
    (c : Calendar) (x : CronExpr) (ts : Float)
    → ((r : Float)
        → next_after c x ts ≡ ok r
        → (m : ℕ) × (c.timestamp m ≡ r)
          × (c.local ts < m)
          × (fires c x m ≡ true)
          × ((k : ℕ) → c.local ts < k → k < m → fires c x k ≡ false))
      × ((err : Error)
          → next_after c x ts ≡ raise err
          → (err ≡ value_error)
            × ((k : ℕ) → c.local ts < k → k ≤ c.local ts + horizon → fires c x k ≡ false))
unfolding next_after
next_after_lem c x ts =
    (λ r e. after_found c x ts r _ refl e, λ err e. after_none c x ts err _ refl e)

-- The minute after that of `ts` is the one that is given back, where the expression matches it.
pub next_after-at_once :
    (c : Calendar) (x : CronExpr) (ts : Float)
    → fires c x (c.local ts + 1) ≡ true
    → next_after c x ts ≡ ok (c.timestamp (c.local ts + 1))
unfolding next_after
next_after-at_once c x ts due =
    ap (λ r. r >>= λ dt. ok (c.timestamp dt)) (at_once (fires c x) 2108159 (c.local ts + 1) due)

-- Where the minutes of the wall clock after that of `ts`, up to `last`, stand for times that are not
-- after `ts`, because the clock has been put back, and all later minutes for times that are, the time
-- that is given back is after `ts` exactly if the expression matches none of the former: otherwise it
-- is not after `ts`.
pub next_after-back :
    (c : Calendar) (x : CronExpr) (ts r : Float) (last : ℕ)
    → ((k : ℕ) → c.local ts < k → k ≤ last → c.timestamp k ≤ ts)
    → ((k : ℕ) → last < k → ts < c.timestamp k)
    → next_after c x ts ≡ ok r
    → ((m : ℕ) × (c.local ts < m) × (m ≤ last) × (fires c x m ≡ true) × (r ≤ ts))
      ⊎ (Skips (fires c x) (c.local ts + 1) (last + 1) × (ts < r))
next_after-back c x ts r last back forth e =
    let (m, is, after, hit, quiet) = (next_after_lem c x ts).0 r e in
    elim (dec_le m last) [
      | yes early ↦ inl (m, after, early, hit, rw (sym is) (back m after early))
      | no late ↦
          inr (λ k p l. quiet k (omega arith) (omega arith), rw (sym is) (forth m (omega arith)))
    ]
