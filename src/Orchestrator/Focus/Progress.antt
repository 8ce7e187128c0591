-- ===== src/Orchestrator/Focus/Progress.antt =====
-- A focus makes only so many steps.
use ujin.Prelude.{
  Result, inr, false, inl, leb, Bool-cases, Result-cases, arith, true, refl, ◌≤◌, raise, Error, ◌<◌,
  some, none, Bool, ok, ◌+◌, Option, ◌*◌, ◌-◌, ◌≡◌, ℕ, if_both, ltb, str_eq, ◌&&◌, String,
}
use ujin.Float.{Float, FloatOps}
use ujin.Orchestrator.State.{
  Phase, ready, building, testing, reviewing, needs_work, approved, integrated, dead, FocusState,
  Config, gate_floor, Test,
}
use ujin.Orchestrator.Gates.{GateRun, run_gates}
use ujin.Orchestrator.Focus.{
  judged, fails, test_diff, review_with, verified, Verdict, Outside, Moved, Step, rests, moves,
  kill, build, run_test, review, retry_or_kill, decided, when_affordable, advance_in, advance_focus,
}

-- how many steps a focus has before it at most, after it was built so many times again
left_in : Phase → ℕ → ℕ
left_in ready retries = 4 * retries + 4
left_in building retries = 4 * retries + 4
left_in testing retries = 4 * retries + 3
left_in reviewing retries = 4 * retries + 2
left_in needs_work retries = 4 * retries + 1
left_in approved retries = 4 * retries
left_in integrated retries = 0
left_in dead retries = 0

unfoldable pub steps_left : Config → FocusState → ℕ
unfolding left_in
steps_left cfg fs = left_in fs.phase (cfg.max_build_retries - fs.attempts)

module _ ⦃F : FloatOps⦄ where
  -- A step that is told of uses up a step; a crash gives none back.
  abbrev pub Falls : Config → FocusState → Moved → Type 0
  Falls cfg fs m =
      (m.step ≡ ok none → m.focus ≡ fs)
      × ((s : Step) → m.step ≡ ok (some s) → steps_left cfg m.focus < steps_left cfg fs)
      × ((e : Error) → m.step ≡ raise e → steps_left cfg m.focus ≤ steps_left cfg fs)

  rests-Falls : (cfg : Config) (fs : FocusState) → Falls cfg fs (rests fs)
  unfolding rests
  rests-Falls cfg fs = (λ e. refl, λ s e. cc, λ e x. cc)

  kill-Falls :
      (cfg : Config) (before fs : FocusState) (cost : Option Float)
      → 1 ≤ steps_left cfg before
      → Falls cfg before (kill fs cost)
  unfolding steps_left left_in kill moves
  kill-Falls cfg before fs cost h = (λ e. cc, λ s e. omega arith, λ e x. cc)

  build-Falls :
      (cfg : Config) (before fs : FocusState) (out : Outside)
      → 4 * (cfg.max_build_retries - fs.attempts) + 4 ≤ steps_left cfg before
      → Falls cfg before (build fs out)
  unfolding build steps_left left_in moves
  build-Falls cfg before fs out h = elim (Result-cases out.builder) [
    | inl (err, bad) ↦ rw (bad, build) (λ e. cc, λ s e. cc, λ e x. h)
    | inr (cost, fine) ↦ rw (fine, build) (λ e. cc, λ s e. omega arith, λ e x. cc)
  ]

  affordable-Falls :
      (cfg : Config) (fs : FocusState) (affordable : Bool) (m : Moved)
      → Falls cfg fs m
      → Falls cfg fs (when_affordable affordable fs m)
  unfolding when_affordable
  affordable-Falls cfg fs true m h = h
  affordable-Falls cfg fs false m h = rests-Falls cfg fs

  judged-Falls :
      (cfg : Config) (floor : Float) (fs : FocusState) (hash : String) (verdict : Result Test)
      → fs.phase ≡ testing
      → Falls cfg fs (judged cfg floor fs hash verdict)
  unfolding judged fails steps_left left_in moves
  judged-Falls cfg floor fs hash (raise err) e = (λ x. refl, λ s x. cc, λ err' x. omega arith)
  judged-Falls cfg floor fs hash (ok test) e =
      (λ x. ground arith, λ s x. ground arith, λ err x. ground arith)

  diff-Falls :
      (cfg : Config) (floor : Float) (fs : FocusState) (gates : Result GateRun)
      (hash : Result String)
      → fs.phase ≡ testing
      → Falls cfg fs (test_diff cfg floor fs gates hash)
  unfolding test_diff fails steps_left left_in
  diff-Falls cfg floor fs gates (raise err) e = (λ x. refl, λ s x. cc, λ err' x. omega arith)
  diff-Falls cfg floor fs gates (ok hash) e =
      if_both (Falls cfg fs) (ltb 0 fs.attempts && str_eq hash fs.last_diff_hash) _ _
        (kill-Falls cfg fs fs none (ground arith))
        (judged-Falls cfg floor fs hash (run_gates gates floor) e)

  test-Falls :
      (cfg : Config) (stored : Option Float) (fs : FocusState) (out : Outside)
      → fs.phase ≡ testing
      → Falls cfg fs (run_test cfg stored fs out)
  unfolding run_test steps_left left_in
  test-Falls cfg stored fs out e =
      diff-Falls cfg (gate_floor cfg stored) fs out.gates out.diff_hash e

  with-Falls :
      (cfg : Config) (fs : FocusState) (answer : Result (Verdict × Float)) (touched : Result Bool)
      → fs.phase ≡ reviewing
      → Falls cfg fs (review_with fs answer touched)
  unfolding review_with verified decided fails steps_left left_in kill moves
  with-Falls cfg fs answer (raise err) e = (λ x. refl, λ s x. cc, λ err' x. omega arith)
  with-Falls cfg fs (raise err) (ok touched) e =
      (λ x. ground arith, λ s x. ground arith, λ err x. ground arith)
  with-Falls cfg fs (ok (verdict, cost)) (ok touched) e =
      (λ x. ground arith, λ s x. ground arith, λ err x. ground arith)

  review-Falls :
      (cfg : Config) (fs : FocusState) (out : Outside)
      → fs.phase ≡ reviewing
      → Falls cfg fs (review fs out)
  unfolding review
  review-Falls cfg fs out e = with-Falls cfg fs out.verifier out.contracts_touched e

  retry-Falls :
      (cfg : Config) (fs : FocusState) (affordable : Bool) (out : Outside)
      → fs.phase ≡ needs_work
      → Falls cfg fs (retry_or_kill cfg fs affordable out)
  unfolding steps_left left_in retry_or_kill
  retry-Falls cfg fs affordable out e = elim (Bool-cases (leb cfg.max_build_retries fs.attempts)) [
    | inl over ↦ rw (over, retry_or_kill) (kill-Falls cfg fs fs none (ground arith))
    | inr under ↦ elim (Bool-cases affordable) [
      | inr broke ↦ rw (under, broke, retry_or_kill) (rests-Falls cfg fs)
      | inl pays ↦
          rw (under, pays, retry_or_kill)
            (build-Falls cfg fs (record fs { attempts = fs.attempts + 1 }) out (ground arith))
    ]
  ]

  Falls-in :
      (p : Phase) (cfg : Config) (stored : Option Float) (fs : FocusState) (affordable : Bool)
      (out : Outside)
      → fs.phase ≡ p
      → Falls cfg fs (advance_in p cfg stored fs affordable out)
  unfolding advance_in steps_left left_in
  Falls-in ready cfg stored fs affordable out e =
      affordable-Falls cfg fs affordable _ (build-Falls cfg fs fs out (ground arith))
  Falls-in building cfg stored fs affordable out e =
      affordable-Falls cfg fs affordable _ (build-Falls cfg fs fs out (ground arith))
  Falls-in testing cfg stored fs affordable out e = test-Falls cfg stored fs out e
  Falls-in reviewing cfg stored fs affordable out e =
      affordable-Falls cfg fs affordable _ (review-Falls cfg fs out e)
  Falls-in needs_work cfg stored fs affordable out e = retry-Falls cfg fs affordable out e
  Falls-in approved cfg stored fs affordable out e = rests-Falls cfg fs
  Falls-in integrated cfg stored fs affordable out e = rests-Falls cfg fs
  Falls-in dead cfg stored fs affordable out e = rests-Falls cfg fs

  -- Every step that a focus takes leaves it fewer steps to take, and a crash leaves it no more, so it
  -- is approved, integrated or dead after at most `steps_left` of them. Without a step it stays as it
  -- was.
  pub advance_focus-Falls :
      (cfg : Config) (stored : Option Float) (fs : FocusState) (affordable : Bool) (out : Outside)
      → Falls cfg fs (advance_focus cfg stored fs affordable out)
  unfolding advance_focus
  advance_focus-Falls cfg stored fs affordable out =
      Falls-in fs.phase cfg stored fs affordable out refl
