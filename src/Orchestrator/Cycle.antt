-- ===== src/Orchestrator/Cycle.antt =====
-- orchestrator/cycle.py: `tick`, one bounded step of the loop, and the handler of each phase of the
-- cycle. A handler returns the store as it was written last, and what it tells of or has raised.
pub mod Order
pub mod Keeps
pub mod Settled
pub mod Stuck
use ujin.Prelude.{
  zero, suc, ◌++◌, length, ◌+◌, leb, ltb, raise, [], not, ok, str_eq, true, ◌∷◌, Bool, List, Option,
  Result, String, false, if◌then◌else◌, keep_if, none, some, sort_by, ℕ,
}
use ujin.Prelude.Dict.{Dict}
use ujin.Float.{Float, FloatOps, float_zero}
use ujin.Orchestrator.State.{
  Phase, ready, building, testing, reviewing, needs_work, approved, integrated, dead, is_active,
  CyclePhase, planning, working, integrating, releasing, completed, halted, Test, FocusState,
  Config, Budget, add_spend, budget_ok,
}
use ujin.Orchestrator.Focus.{Outside, Moved, Step, kill, advance_focus}
use ujin.Orchestrator.Merge.{
  Commits, MergeRun, Merged, merge_agent_branch, ReleaseRun, Released, release,
}
use Prim.Native.Nat.{Ordering}
use Prim.Native.String.{compare as compare_str}
use ujin.Orchestrator.Store.{
  Cycle, Item, Store, World, Action, Worked, Ticked, write_focus, all_foci, cfg_for_state, untested,
  priority_of, planned_focus, write_items, in_phase, is_ready, is_approved, is_integrated, killed,
  plan_skipped_budget, plan_empty, work_complete, integrate_complete, release_empty, idle, planned,
  work, focus_integrated, merge_requeue, merge_dead, release_done, cycle_started,
}

-- the ready foci that there is room for
unfoldable pub admit : ℕ → List FocusState → List FocusState → List FocusState
admit most order [] = order
admit most order (f ∷ fs) =
    if leb most (length order) then order else admit most (order ++ (f ∷ [])) fs

-- the foci in the order in which they are advanced
unfoldable pub order_of : Config → List FocusState → List FocusState
unfolding admit
order_of cfg active =
    let started : List FocusState = keep_if (λ f. not (is_ready f.phase)) active in
    let ready_ones : List FocusState = keep_if (λ f. is_ready f.phase) active in
    admit cfg.max_concurrent (sort_by (λ f. f.priority) started)
      (sort_by (λ f. f.priority) ready_ones)

unfoldable pub cons_step : String → Step → Worked → Worked
cons_step focus s (store, ok steps) = (store, ok ((focus, s) ∷ steps))
cons_step focus s (store, raise e) = (store, raise e)

-- `_start_next_cycle`
unfoldable pub start_next_cycle : World → Config → Cycle → Store → Ticked
unfolding in_phase
start_next_cycle w cfg c store = if cfg.drain then (in_phase halted c store, ok idle) else (
  record store {
    cycle = some (record { name = w.next_cycle cfg.cycle; phase = planning });
    backlog = [];
  },
  ok (cycle_started (w.next_cycle cfg.cycle)),
)

-- `_resume_or_idle`
unfoldable pub resume_or_idle : World → Config → Cycle → Store → Ticked
unfolding start_next_cycle
resume_or_idle w cfg c store =
    if cfg.drain then (store, ok idle) else start_next_cycle w cfg c store

module _ ⦃F : FloatOps⦄ where
  unfoldable pub spend : World → Config → Float → Store → Store
  spend w cfg usd store = record store {
    budget = add_spend w.cents w.today usd cfg.cycle store.budget;
  }

  -- what the planner's answer leads to
  plan_with : World → Config → Cycle → Store → Result (List Item × Float) → Ticked
  unfolding spend in_phase write_items
  plan_with w cfg c store (raise e) = (store, raise e)
  plan_with w cfg c store (ok ([], cost)) = (spend w cfg cost store, ok plan_empty)
  plan_with w cfg c store (ok (item ∷ items, cost)) = (
    in_phase working c (record (spend w cfg cost store) {
      foci = write_items cfg (item ∷ items) store.foci;
      backlog = item ∷ items;
    }),
    ok (planned (item ∷ items)),
  )

  -- `_do_plan`
  unfoldable pub do_plan : World → Config → Cycle → Store → Ticked
  unfolding plan_with
  do_plan w cfg c store =
      if not (budget_ok cfg w.today store.budget)
      then (store, ok plan_skipped_budget)
      else plan_with w cfg c store w.planner

  -- the spending and the floor of a step are written before its focus
  unfoldable pub written : World → Config → Moved → Store → Store
  unfolding spend
  written w cfg m store = record store {
    foci = write_focus m.focus store.foci;
    budget = elim m.cost [
      | none ↦ store.budget
      | some usd ↦ add_spend w.cents w.today usd cfg.cycle store.budget
    ];
    cov_floor = elim m.floor [ none ↦ store.cov_floor | some pct ↦ some (w.digits pct) ];
  }

  -- what a step of a focus leads to; `next` goes on with the others while so many operations are left
  advance_next :
      World
      → Config
      → ℕ
      → FocusState
      → Result (Option Step)
      → Moved
      → Store
      → (ℕ → Store → Worked)
      → Worked
  unfolding written cons_step
  advance_next w cfg left fs (raise e) m store next = (written w cfg m store, raise e)
  advance_next w cfg left fs (ok none) m store next = next (suc left) store
  advance_next w cfg left fs (ok (some s)) m store next =
      cons_step fs.focus s (next left (written w cfg m store))

  -- the loop of `_advance_work`; `left` operations may still be done
  unfoldable pub advance_all : World → Config → Bool → ℕ → List FocusState → Store → Worked
  unfolding advance_focus advance_next
  advance_all w cfg affordable left [] store = (store, ok [])
  advance_all w cfg affordable zero (fs ∷ order) store = (store, ok [])
  advance_all w cfg affordable (suc left) (fs ∷ order) store =
      let m : Moved = advance_focus cfg store.cov_floor fs affordable (w.about fs.focus) in
      advance_next w cfg left fs m.step m store
        (λ left' store'. advance_all w cfg affordable left' order store')

  unfoldable pub told : Worked → Ticked
  told (store, ok steps) = (store, ok (work steps))
  told (store, raise e) = (store, raise e)

  -- the active foci of the cycle are advanced, if there are any
  work_on : World → Config → Cycle → Store → List FocusState → Ticked
  unfolding order_of advance_all told in_phase
  work_on w cfg c store [] = (in_phase integrating c store, ok work_complete)
  work_on w cfg c store (f ∷ fs) = told (
      advance_all w cfg (budget_ok cfg w.today store.budget) cfg.max_concurrent
        (order_of cfg (f ∷ fs)) store)

  -- `_advance_work`
  unfoldable pub advance_work : World → Config → Cycle → Store → Ticked
  unfolding work_on
  advance_work w cfg c store =
      work_on w cfg c store (keep_if (λ f. is_active f.phase) (all_foci cfg.cycle store.foci))

  -- what a merge leaves of its focus; `merged` has the branch as the merge left it
  integrate_as : Result Bool → Config → Cycle → FocusState → Store → Ticked
  unfolding in_phase
  integrate_as (raise e) cfg c fs merged = (merged, raise e)
  integrate_as (ok true) cfg c fs merged = (
    record merged { foci = write_focus (record fs { phase = integrated }) merged.foci },
    ok (focus_integrated fs.focus),
  )
  integrate_as (ok false) cfg c fs merged =
      if ltb fs.attempts cfg.max_build_retries
      then (
        in_phase working c (record merged {
          foci =
              write_focus (record fs { phase = needs_work; attempts = fs.attempts + 1 })
                merged.foci;
        }),
        ok (merge_requeue fs.focus),
      )
      else (
        record merged { foci = write_focus (kill fs none).focus merged.foci },
        ok (merge_dead fs.focus),
      )

  unfoldable pub integrate_focus : World → Config → Cycle → FocusState → Store → Ticked
  unfolding integrate_as
  integrate_focus w cfg c fs store =
      let m : Merged = merge_agent_branch cfg w.merge store.integration in
      integrate_as m.merged cfg c fs (record store { integration = m.head })

  -- one merge per tick
  integrate_first : World → Config → Cycle → Store → List FocusState → Ticked
  unfolding integrate_focus in_phase
  integrate_first w cfg c store [] = (in_phase releasing c store, ok integrate_complete)
  integrate_first w cfg c store (fs ∷ rest) = integrate_focus w cfg c fs store

  -- `_do_integrate`
  unfoldable pub do_integrate : World → Config → Cycle → Store → Ticked
  unfolding integrate_first
  do_integrate w cfg c store = integrate_first w cfg c store (
      sort_by (λ f. f.priority)
        (keep_if (λ f. is_approved f.phase) (all_foci cfg.cycle store.foci)))

  -- the cycle is completed where the release does not raise
  released_as : Result Bool → Cycle → Store → Ticked
  unfolding in_phase
  released_as (raise e) c store = (store, raise e)
  released_as (ok done) c store = (in_phase completed c store, ok (release_done done))

  -- a release of what is integrated, if anything is
  release_all : World → Config → Cycle → Store → List FocusState → Ticked
  unfolding in_phase released_as
  release_all w cfg c store [] = (in_phase completed c store, ok release_empty)
  release_all w cfg c store (f ∷ fs) =
      let r : Released = release cfg w.release store.integration store.base in
      released_as r.released c (record store { integration = r.integration; base = r.base })

  -- `_do_release`
  unfoldable pub do_release : World → Config → Cycle → Store → Ticked
  unfolding release_all
  do_release w cfg c store =
      release_all w cfg c store
        (keep_if (λ f. is_integrated f.phase) (all_foci cfg.cycle store.foci))

  handle : CyclePhase → World → Config → Cycle → Store → Ticked
  unfolding do_plan advance_work do_integrate do_release start_next_cycle resume_or_idle
  handle planning w cfg c store = do_plan w cfg c store
  handle working w cfg c store = advance_work w cfg c store
  handle integrating w cfg c store = do_integrate w cfg c store
  handle releasing w cfg c store = do_release w cfg c store
  handle completed w cfg c store = start_next_cycle w cfg c store
  handle halted w cfg c store = resume_or_idle w cfg c store

  -- the first tick starts the configured cycle
  tick_in : World → Config → Store → Option Cycle → Ticked
  unfolding handle cfg_for_state
  tick_in w cfg store (some c) = handle c.phase w (cfg_for_state cfg (some c)) c store
  tick_in w cfg store none =
      let c : Cycle = record { name = cfg.cycle; phase = planning } in
      handle planning w cfg c (record store { cycle = some c })

  unfoldable pub tick : World → Config → Store → Ticked
  unfolding tick_in
  tick w cfg store = if store.killed then (store, ok killed) else tick_in w cfg store store.cycle
