-- ===== src/Orchestrator/Gates.antt =====
-- orchestrator/gates.py: the verdict of the gates on what `make cov` and `make bench` have said.
use ujin.Prelude.{
  ltb, if◌then◌else◌, none, leb, not, some, ◌||◌, false, ◌&&◌, ◌==◌, Bool, Option, ℕ, Result, ok,
  raise,
}
use ujin.Float.{Float}
use ujin.Orchestrator.State.{Test}

-- The return codes and what the output tells: the numbers of tests, the coverage, a timeout.
pub record GateRun : Type 0 where
  pub cov_rc : ℕ
  pub says_timeout : Bool
  pub passed : ℕ
  pub failed : ℕ
  pub cov_pct : Option Float
  pub bench_rc : ℕ

reaches : Float → Option Float → Bool
reaches floor none = false
reaches floor (some pct) = leb floor pct

unfoldable pub verdict_of : GateRun → Float → Test
unfolding reaches
verdict_of g floor =
    let green : Bool =
      g.cov_rc == 0 || (g.failed == 0 && (not (g.cov_rc == 124) && not g.says_timeout)) in
    let tests_green : Bool = (if ltb 0 g.failed then false else green) in
    record {
      tests_green = tests_green && g.failed == 0;
      coverage_ok = reaches floor g.cov_pct;
      bench_ok = g.bench_rc == 0;
      cov_pct = g.cov_pct;
    }

-- `run_gates`: it raises where the package is not imported from the worktree (`verify_import`)
unfoldable pub run_gates : Result GateRun → Float → Result Test
unfolding verdict_of
run_gates (raise e) floor = raise e
run_gates (ok g) floor = ok (verdict_of g floor)

unfoldable pub gate_passed : Test → Bool
gate_passed t = t.tests_green && (t.coverage_ok && t.bench_ok)
