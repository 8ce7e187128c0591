-- ===== src/Tests/Orchestrator.antt =====
-- Ticks of a cycle over decimals with two places.
use ujin.Prelude.{Result, refl, Bool, arith, some, List, [], false, none, ok, true, ◌∷◌, ◌≡◌, ℕ}
use ujin.Float.{Float}
use ujin.Float.Fixed.{fixed}
use ujin.Orchestrator.State.{
  Phase, ready, reviewing, needs_work, approved, CyclePhase, planning, working, integrating, Test,
  FocusState, Config, budget_ok, read_budget, is_active,
}
use ujin.Orchestrator.Gates.{GateRun}
use ujin.Orchestrator.Focus.{Outside, approves, advance_focus, kill}
use ujin.Orchestrator.Focus.Progress.{Falls, advance_focus-Falls}
use ujin.Orchestrator.Focus.Sound.{advance_focus-approved}
use ujin.Orchestrator.Merge.{MergeRun, merge_agent_branch}
use ujin.Orchestrator.Merge.Green.{IsGreen, merge_agent_branch-IsGreen}
use ujin.Orchestrator.Store.{World, Store, plan_skipped_budget, merge_requeue, write_focus}
use ujin.Orchestrator.Cycle.{tick, integrate_focus}
use ujin.Orchestrator.Cycle.Settled.{IsSettled, tick-IsSettled}
use ujin.Orchestrator.Cycle.Stuck.{tick-stuck, tick-unspent, requeue-kills}

abbrev green : Test
green = record { tests_green = true; coverage_ok = true; bench_ok = true; cov_pct = some 9200 }

abbrev green_run : GateRun
green_run = record {
  cov_rc = 0;
  says_timeout = false;
  passed = 10;
  failed = 0;
  cov_pct = some 9200;
  bench_rc = 0;
}

abbrev focus_in : Phase → ℕ → FocusState
focus_in phase attempts = record {
  focus = "cache";
  cycle = "0.6";
  priority = 1;
  phase = phase;
  attempts = attempts;
  last_diff_hash = "";
  test = green;
}

abbrev config : Config
config = record {
  cycle = "0.6";
  max_concurrent = 2;
  max_build_retries = 2;
  coverage_floor = 8000;
  coverage_floor_cap = 9000;
  per_day = 1000;
  per_cycle = 2000;
  drain = false;
  full_auto = true;
  push_on_release = false;
}

abbrev outside : Outside
outside = record {
  builder = ok 100;
  diff_hash = ok "d1";
  gates = ok green_run;
  contracts_touched = ok false;
  verifier = ok (approves, 50);
}

abbrev conflict : MergeRun
conflict = record {
  worktree = ok tt;
  merge = none;
  conflicts = "a.py" ∷ [];
  triage = none;
  commit = none;
  gates = ok green_run;
}

abbrev world : World
world = record {
  today = "d";
  cents = λ x. x;
  digits = λ x. x;
  next_cycle = λ c. "0.7";
  planner = ok ([], 10);
  about = λ f. outside;
  merge = conflict;
  release = record {
    touched = ok false;
    commit = none;
    gates = ok green_run;
    worktree = ok tt;
    merge = none;
    head = ok tt;
    push = false;
  };
}

abbrev store_in : CyclePhase → List FocusState → Float → Store
store_in phase foci spent = record {
  killed = false;
  cycle = some (record { name = "0.6"; phase = phase });
  backlog = [];
  foci = foci;
  cov_floor = none;
  budget = record { day = "d"; spent_today = spent; cycle = "0.5"; spent_cycle = spent };
  integration = "c0" ∷ [];
  base = "b0" ∷ [];
}

advance_focus-Falls_example :
    Falls config
      (focus_in reviewing 0)
      (advance_focus config none (focus_in reviewing 0) true outside)
advance_focus-Falls_example = advance_focus-Falls config none (focus_in reviewing 0) true outside

advance_focus-approved_example :
    (◌≡◌ {A = Phase} reviewing reviewing)
    × (◌≡◌ {A = Bool} true true)
    × (◌≡◌ {A = Result Bool} (ok false) (ok false))
    × ((cost : Float) × (outside.verifier ≡ ok (approves, cost)))
unfolding advance_focus
advance_focus-approved_example =
    advance_focus-approved config none (focus_in reviewing 0) true outside (λ e. cc) refl

merge_agent_branch-IsGreen_example :
    IsGreen config conflict ("c0" ∷ []) (merge_agent_branch config conflict ("c0" ∷ []))
merge_agent_branch-IsGreen_example = merge_agent_branch-IsGreen config conflict ("c0" ∷ [])

tick-IsSettled_example :
    IsSettled config (tick world config (store_in integrating (focus_in approved 0 ∷ []) 0)).0
unfolding is_active
tick-IsSettled_example =
    tick-IsSettled world config (store_in integrating (focus_in approved 0 ∷ []) 0) (λ e. refl, tt)

tick-stuck_example :
    tick world config (store_in planning [] 2000)
    ≡ (store_in planning [] 2000, ok plan_skipped_budget)
tick-stuck_example =
    tick-stuck world config (store_in planning [] 2000) (record { name = "0.6"; phase = planning })
      refl refl refl (omega arith)

tick-unspent_example :
    (tick world config (store_in working (focus_in ready 0 ∷ []) 2000)).0.budget
    ≡ (store_in working (focus_in ready 0 ∷ []) 2000).budget
unfolding budget_ok read_budget
tick-unspent_example =
    tick-unspent world config (store_in working (focus_in ready 0 ∷ []) 2000) (ground arith)

abbrev again : FocusState
again = record (focus_in approved 1) { phase = needs_work; attempts = 2 }

requeue-kills_example :
    ((integrate_focus world config
        (record { name = "0.6"; phase = integrating })
        (focus_in approved 1)
        (store_in integrating [] 0)).0.foci
      ≡ write_focus again [])
    × ((integrate_focus world config
          (record { name = "0.6"; phase = integrating })
          (focus_in approved 1)
          (store_in integrating [] 0)).1
        ≡ ok (merge_requeue "cache"))
    × (advance_focus config none again true outside ≡ kill again none)
unfolding merge_agent_branch
requeue-kills_example =
    requeue-kills world config (record { name = "0.6"; phase = integrating }) (focus_in approved 1)
      (store_in integrating [] 0) none true outside refl (omega arith)
