-- ===== src/Orchestrator/Focus.antt =====
-- orchestrator/cycle.py: `_advance_focus` and the steps it takes.
pub mod Progress
pub mod Sound
use ujin.Prelude.{
  min, str_eq, ◌&&◌, ◌+◌, ◌==◌, leb, ltb, not, Bool, Option, if◌then◌else◌, none, some, ℕ, String,
  Result, Error, ok, raise,
}
use ujin.Float.{Float, FloatOps, float_zero}
use ujin.Orchestrator.State.{
  Phase, ready, building, testing, reviewing, needs_work, approved, integrated, dead, Test,
  FocusState, Config, gate_floor,
}
use ujin.Orchestrator.Gates.{GateRun, run_gates, gate_passed}

pub data Verdict : Type 0 where
  approves wants_work rejects : Verdict

pub data Step : Type 0 where
  built gate_green gate_red passes_review more_work died : Step

-- What the builder with its worktree, git, the gates and the verifier would answer in this tick. Each
-- may raise, and a run of an agent costs money.
pub record Outside : Type 0 where
  pub builder : Result Float
  pub diff_hash : Result String
  pub gates : Result GateRun
  pub contracts_touched : Result Bool
  pub verifier : Result (Verdict × Float)

-- What a step leaves: the focus as it was written last, the step that it tells of or what it raised,
-- what a run of an agent cost, and the coverage floor if one is written.
pub record Moved : Type 0 where
  pub focus : FocusState
  pub step : Result (Option Step)
  pub cost : Option Float
  pub floor : Option Float

module _ ⦃F : FloatOps⦄ where
  rests : FocusState → Moved
  rests fs = record { focus = fs; step = ok none; cost = none; floor = none }

  unfoldable pub moves : FocusState → Step → Option Float → Moved
  moves fs step cost = record { focus = fs; step = ok (some step); cost = cost; floor = none }

  unfoldable pub kill : FocusState → Option Float → Moved
  unfolding moves
  kill fs cost = moves (record fs { phase = dead }) died cost

  unfoldable pub build : FocusState → Outside → Moved
  unfolding moves
  build fs out = elim out.builder [
    | raise e ↦ record {
      focus = record fs { phase = building };
      step = raise e;
      cost = none;
      floor = none;
    }
    | ok cost ↦ moves (record fs { phase = testing }) built (some cost)
  ]

  -- the coverage floor, raised but never above the cap; a coverage of 0 counts as none
  unfoldable pub ratchet : Config → Float → Option Float → Option Float
  ratchet cfg floor none = none
  ratchet cfg floor (some pct) =
      if not (pct == float_zero) && ltb floor pct
      then some (min pct cfg.coverage_floor_cap)
      else none

  -- what a step leaves that raises before it writes anything
  fails : FocusState → Error → Moved
  fails fs e = record { focus = fs; step = raise e; cost = none; floor = none }

  -- the verdict of the gates on a branch with this diff
  judged : Config → Float → FocusState → String → Result Test → Moved
  unfolding fails moves ratchet
  judged cfg floor fs hash (raise e) = fails fs e
  judged cfg floor fs hash (ok test) =
      let fs' : FocusState = record fs { last_diff_hash = hash; test = test } in
      if gate_passed test
      then record {
        focus = record fs' { phase = reviewing };
        step = ok (some gate_green);
        cost = none;
        floor = ratchet cfg floor test.cov_pct;
      }
      else moves (record fs' { phase = needs_work }) gate_red none

  test_diff : Config → Float → FocusState → Result GateRun → Result String → Moved
  unfolding fails kill judged
  test_diff cfg floor fs gates (raise e) = fails fs e
  test_diff cfg floor fs gates (ok hash) =
      if ltb 0 fs.attempts && str_eq hash fs.last_diff_hash
      then kill fs none
      else judged cfg floor fs hash (run_gates gates floor)

  unfoldable pub run_test : Config → Option Float → FocusState → Outside → Moved
  unfolding test_diff
  run_test cfg stored fs out = test_diff cfg (gate_floor cfg stored) fs out.gates out.diff_hash

  decided : FocusState → Verdict → Float → Moved
  unfolding kill moves
  decided fs approves cost = moves (record fs { phase = approved }) passes_review (some cost)
  decided fs wants_work cost = moves (record fs { phase = needs_work }) more_work (some cost)
  decided fs rejects cost = kill fs (some cost)

  verified : FocusState → Result (Verdict × Float) → Moved
  unfolding fails decided
  verified fs (raise e) = fails fs e
  verified fs (ok (verdict, cost)) = decided fs verdict cost

  review_with : FocusState → Result (Verdict × Float) → Result Bool → Moved
  unfolding fails kill verified
  review_with fs answer (raise e) = fails fs e
  review_with fs answer (ok touched) = if touched then kill fs none else verified fs answer

  unfoldable pub review : FocusState → Outside → Moved
  unfolding review_with
  review fs out = review_with fs out.verifier out.contracts_touched

  unfoldable pub retry_or_kill : Config → FocusState → Bool → Outside → Moved
  unfolding kill rests build
  retry_or_kill cfg fs affordable out =
      if leb cfg.max_build_retries fs.attempts
      then kill fs none
      else if not affordable
      then rests fs
      else build (record fs { attempts = fs.attempts + 1 }) out

  when_affordable : Bool → FocusState → Moved → Moved
  unfolding rests
  when_affordable affordable fs m = if affordable then m else rests fs

  unfoldable pub advance_in : Phase → Config → Option Float → FocusState → Bool → Outside → Moved
  unfolding build run_test review retry_or_kill rests when_affordable
  advance_in ready cfg stored fs affordable out = when_affordable affordable fs (build fs out)
  advance_in building cfg stored fs affordable out = when_affordable affordable fs (build fs out)
  advance_in testing cfg stored fs affordable out = run_test cfg stored fs out
  advance_in reviewing cfg stored fs affordable out = when_affordable affordable fs (review fs out)
  advance_in needs_work cfg stored fs affordable out = retry_or_kill cfg fs affordable out
  advance_in approved cfg stored fs affordable out = rests fs
  advance_in integrated cfg stored fs affordable out = rests fs
  advance_in dead cfg stored fs affordable out = rests fs

  unfoldable pub advance_focus : Config → Option Float → FocusState → Bool → Outside → Moved
  unfolding advance_in
  advance_focus cfg stored fs affordable out = advance_in fs.phase cfg stored fs affordable out
