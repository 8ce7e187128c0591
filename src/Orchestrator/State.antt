-- ===== src/Orchestrator/State.antt =====
-- orchestrator/state.py and config.py: what a tick finds on disk. The texts of a focus, its costs and the
-- log of events are left out; each file is written at once, so a write is one step.
use ujin.Prelude.{
  false, none, ◌&&◌, ltb, min, some, str_eq, true, Bool, Option, if◌then◌else◌, ℕ, String,
}
use ujin.Float.{Float, FloatOps, add, float_zero}

pub data Phase : Type 0 where
  ready building testing reviewing needs_work approved integrated dead : Phase

pub data CyclePhase : Type 0 where
  planning working integrating releasing completed halted : CyclePhase

-- ACTIVE_PHASES
unfoldable pub is_active : Phase → Bool
is_active ready = true
is_active building = true
is_active testing = true
is_active reviewing = true
is_active needs_work = true
is_active approved = false
is_active integrated = false
is_active dead = false

-- the entries of `test` that decide
pub record Test : Type 0 where
  pub tests_green : Bool
  pub coverage_ok : Bool
  pub bench_ok : Bool
  pub cov_pct : Option Float

pub record FocusState : Type 0 where
  pub focus : String
  pub cycle : String
  pub priority : ℕ
  pub phase : Phase
  pub attempts : ℕ
  pub last_diff_hash : String
  pub test : Test

pub record Budget : Type 0 where
  pub day : String
  pub spent_today : Float
  pub cycle : String
  pub spent_cycle : Float

pub record Config : Type 0 where
  pub cycle : String
  pub max_concurrent : ℕ
  pub max_build_retries : ℕ
  pub coverage_floor : Float
  pub coverage_floor_cap : Float
  pub per_day : Float
  pub per_cycle : Float
  pub drain : Bool
  pub full_auto : Bool
  pub push_on_release : Bool

module _ ⦃F : FloatOps⦄ where
  -- the daily counter rolls over with the day
  unfoldable pub read_budget : String → Budget → Budget
  read_budget today b =
      if str_eq b.day today then b else record b { day = today; spent_today = float_zero }

  -- `cents` stands for `round(…, 4)`
  unfoldable pub add_spend : (Float → Float) → String → Float → String → Budget → Budget
  unfolding read_budget
  add_spend cents today usd cycle budget =
      let b : Budget = read_budget today budget in
      let so_far : Float = (if str_eq b.cycle cycle then b.spent_cycle else float_zero) in
      record b {
        spent_today = cents (add b.spent_today usd);
        cycle = cycle;
        spent_cycle = cents (add so_far usd);
      }

  unfoldable pub budget_ok : Config → String → Budget → Bool
  unfolding read_budget
  budget_ok cfg today budget =
      let b : Budget = read_budget today budget in
      ltb b.spent_today cfg.per_day && ltb b.spent_cycle cfg.per_cycle

-- `read_cov_floor`, with the default
abbrev pub cov_floor : Config → Option Float → Float
cov_floor cfg none = cfg.coverage_floor
cov_floor cfg (some floor) = floor

-- the floor that a branch is held to
unfoldable pub gate_floor : Config → Option Float → Float
gate_floor cfg stored = min (cov_floor cfg stored) cfg.coverage_floor_cap
