-- ===== src/Orchestrator/Store.antt =====
-- What a tick of orchestrator/cycle.py works on: the state directory (orchestrator/state.py), the branches,
-- what is outside, and the actions that a tick tells of. A priority is a number from 0 on.
use ujin.Prelude.{
  [], str_eq, true, ◌∷◌, Bool, List, Option, Result, String, false, if◌then◌else◌, keep_if, none,
  some, ℕ,
}
use ujin.Float.{Float}
use ujin.Orchestrator.State.{
  Phase, ready, approved, integrated, CyclePhase, Test, FocusState, Config, Budget,
}
use ujin.Orchestrator.Focus.{Outside, Step}
use ujin.Orchestrator.Merge.{Commits, MergeRun, ReleaseRun}
use Prim.Native.Nat.{Ordering}
use Prim.Native.String.{compare as compare_str}

-- cycle.json
pub record Cycle : Type 0 where
  pub name : String
  pub phase : CyclePhase

pub record Item : Type 0 where
  pub focus : String
  pub priority : Option ℕ

-- What the state directory and the branches hold; `foci` are those of all cycles, by their names.
pub record Store : Type 0 where
  pub killed : Bool
  pub cycle : Option Cycle
  pub backlog : List Item
  pub foci : List FocusState
  pub cov_floor : Option Float
  pub budget : Budget
  pub integration : Commits
  pub base : Commits

-- What is outside: the date, what the agents and git answer or raise (`planner` also for the worktree
-- that is made before it is asked), `round(…, 4)` of a cost, the text of a
-- floor read back, and `next_cycle`.
pub record World : Type 0 where
  pub today : String
  pub cents : Float → Float
  pub digits : Float → Float
  pub next_cycle : String → String
  pub planner : Result (List Item × Float)
  pub about : String → Outside
  pub merge : MergeRun
  pub release : ReleaseRun

pub data Action : Type 0 where
  killed plan_skipped_budget plan_empty work_complete integrate_complete release_empty idle : Action
  planned : List Item → Action
  work : List (String × Step) → Action
  focus_integrated merge_requeue merge_dead : String → Action
  release_done : Bool → Action
  cycle_started : String → Action

abbrev pub Worked : Type 0
Worked = Store × Result (List (String × Step))

abbrev pub Ticked : Type 0
Ticked = Store × Result Action

-- the file of a focus is written in place of that of its name
unfoldable pub write_focus : FocusState → List FocusState → List FocusState
write_focus fs [] = fs ∷ []
write_focus fs (g ∷ foci) = elim (compare_str fs.focus g.focus) [
  | Ordering.lt ↦ fs ∷ g ∷ foci
  | Ordering.eq ↦ fs ∷ foci
  | Ordering.gt ↦ g ∷ write_focus fs foci
]

-- `all_foci`
unfoldable pub all_foci : String → List FocusState → List FocusState
all_foci cycle foci = keep_if (λ fs. str_eq fs.cycle cycle) foci

-- `_cfg_for_state`
unfoldable pub cfg_for_state : Config → Option Cycle → Config
cfg_for_state cfg none = cfg
cfg_for_state cfg (some c) = if str_eq c.name "" then cfg else record cfg { cycle = c.name }

unfoldable pub untested : Test
untested = record { tests_green = false; coverage_ok = false; bench_ok = false; cov_pct = none }

unfoldable pub priority_of : Option ℕ → ℕ
priority_of none = 5
priority_of (some p) = p

-- the focus that a planned item starts
unfoldable pub planned_focus : Config → Item → FocusState
unfolding untested priority_of
planned_focus cfg item = record {
  focus = item.focus;
  cycle = cfg.cycle;
  priority = priority_of item.priority;
  phase = ready;
  attempts = 0;
  last_diff_hash = "";
  test = untested;
}

unfoldable pub write_items : Config → List Item → List FocusState → List FocusState
unfolding planned_focus
write_items cfg [] foci = foci
write_items cfg (item ∷ items) foci =
    write_items cfg items (write_focus (planned_focus cfg item) foci)

unfoldable pub in_phase : CyclePhase → Cycle → Store → Store
in_phase phase c store = record store { cycle = some (record c { phase = phase }) }

unfoldable pub is_ready : Phase → Bool
is_ready ready = true
is_ready _ = false

unfoldable pub is_approved : Phase → Bool
is_approved approved = true
is_approved _ = false

unfoldable pub is_integrated : Phase → Bool
is_integrated integrated = true
is_integrated _ = false
