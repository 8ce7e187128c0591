-- ===== src/Orchestrator/Cycle/Stuck.antt =====
-- What the budget stops, and how it stops a cycle for good.
use ujin.Prelude.{
  true, ◌+◌, Bool, zero, [], suc, raise, ◌∷◌, List, Result, if_both, ap, ◌∙◌, if_not, refl, none,
  inr, inl, str_eq, Bool-cases, arith, ok, false, some, ◌≤◌, Option, String, ◌≡◌, ℕ,
}
use ujin.Float.{Float, FloatOps}
use ujin.Orchestrator.State.{
  needs_work, FocusState, Config, CyclePhase, planning, working, integrating, releasing, completed,
  halted, budget_ok, read_budget, Budget,
}
use ujin.Orchestrator.Focus.{Moved, Step, advance_focus, advance_in, retry_or_kill, kill, Outside}
use ujin.Orchestrator.Store.{
  Worked, in_phase, World, Store, Cycle, merge_requeue, write_focus, idle, killed,
  plan_skipped_budget, cfg_for_state, Ticked,
}
use ujin.Orchestrator.Cycle.{
  order_of, advance_all, advance_next, written, start_next_cycle, resume_or_idle, work_on,
  advance_work, integrate_focus, integrate_first, do_integrate, release_all, do_release, handle,
  do_plan, tick, tick_in, integrate_as, released_as,
}
use ujin.Orchestrator.Merge.{merge_agent_branch, release}
use ujin.Orchestrator.Cycle.Keeps.{told_lem, cons_lem}
use ujin.Orchestrator.Focus.Sound.{advance_focus-costless}

module _ ⦃F : FloatOps⦄ where
  per_cycle_lem :
      (cfg : Config) (c : Option Cycle) → (cfg_for_state cfg c).per_cycle ≡ cfg.per_cycle
  unfolding cfg_for_state
  per_cycle_lem cfg none = refl
  per_cycle_lem cfg (some c) = elim (Bool-cases (str_eq c.name "")) [
    | inl blank ↦ rw (blank, cfg_for_state) refl
    | inr named ↦ rw (named, cfg_for_state) refl
  ]

  spent_lem :
      (cfg : Config) (today : String) (b : Budget)
      → cfg.per_cycle ≤ b.spent_cycle
      → budget_ok cfg today b ≡ false
  unfolding budget_ok read_budget
  spent_lem cfg today b h = ground arith

  -- A cycle that is being planned while as much is spent as a cycle may, under whatever name the cycle
  -- is in the budget, is not planned, and the store is left as it is, on any day: each later tick says
  -- so again.
  pub tick-stuck :
      (w : World) (cfg : Config) (store : Store) (c : Cycle)
      → store.killed ≡ false
      → store.cycle ≡ some c
      → c.phase ≡ planning
      → cfg.per_cycle ≤ store.budget.spent_cycle
      → tick w cfg store ≡ (store, ok plan_skipped_budget)
  unfolding tick tick_in handle do_plan
  tick-stuck w cfg store c on at e spent =
      let now : Config = cfg_for_state cfg (some c) in
      let enough : now.per_cycle ≤ store.budget.spent_cycle =
        omega (arith, per_cycle_lem cfg (some c), spent) in
      let no_budget : budget_ok now w.today store.budget ≡ false =
        spent_lem now w.today store.budget enough in
      if_not store.killed (store, ok killed) (tick_in w cfg store store.cycle) on
      ∙ ap (λ o. tick_in w cfg store o) at
      ∙ ap (λ p. handle p w now c store) e
      ∙ rw (no_budget, do_plan) refl

  written_unspent :
      (w : World) (cfg : Config) (m : Moved) (store : Store)
      → m.cost ≡ none
      → (written w cfg m store).budget ≡ store.budget
  unfolding written
  written_unspent w cfg m store free = rw (free, written) refl

  next_unspent :
      (w : World) (cfg : Config) (left : ℕ) (fs : FocusState) (step : Result (Option Step))
      (m : Moved) (store : Store) (next : ℕ → Store → Worked)
      → m.cost ≡ none
      → ((left' : ℕ) (store' : Store) → (next left' store').0.budget ≡ store'.budget)
      → (advance_next w cfg left fs step m store next).0.budget ≡ store.budget
  unfolding advance_next written
  next_unspent w cfg left fs (raise e) m store next free k = written_unspent w cfg m store free
  next_unspent w cfg left fs (ok none) m store next free k = k (suc left) store
  next_unspent w cfg left fs (ok (some s)) m store next free k =
      rw (cons_lem fs.focus s (next left (written w cfg m store)))
        (k left (written w cfg m store) ∙ written_unspent w cfg m store free)

  all_unspent :
      (w : World) (cfg : Config) (left : ℕ) (order : List FocusState) (store : Store)
      → (advance_all w cfg false left order store).0.budget ≡ store.budget
  unfolding advance_all
  all_unspent w cfg left [] store = refl
  all_unspent w cfg zero (fs ∷ order) store = refl
  all_unspent w cfg (suc left) (fs ∷ order) store =
      let m : Moved = advance_focus cfg store.cov_floor fs false (w.about fs.focus) in
      next_unspent w cfg left fs m.step m store
        (λ left' store'. advance_all w cfg false left' order store')
        (advance_focus-costless cfg store.cov_floor fs (w.about fs.focus))
        (λ left' store'. all_unspent w cfg left' order store')

  work_unspent :
      (w : World) (cfg : Config) (c : Cycle) (store : Store) (active : List FocusState)
      → budget_ok cfg w.today store.budget ≡ false
      → (work_on w cfg c store active).0.budget ≡ store.budget
  unfolding work_on in_phase
  work_unspent w cfg c store [] broke = refl
  work_unspent w cfg c store (f ∷ fs) broke =
      rw
        (
          told_lem (
              advance_all w cfg (budget_ok cfg w.today store.budget) cfg.max_concurrent
                (order_of cfg (f ∷ fs)) store),
          broke,
        )
        (all_unspent w cfg cfg.max_concurrent (order_of cfg (f ∷ fs)) store)

  as_unspent :
      (merged : Result Bool) (cfg : Config) (c : Cycle) (fs : FocusState) (store : Store)
      → (integrate_as merged cfg c fs store).0.budget ≡ store.budget
  unfolding integrate_as in_phase
  as_unspent (raise e) cfg c fs store = refl
  as_unspent (ok true) cfg c fs store = refl
  as_unspent (ok false) cfg c fs store = ground arith

  released_unspent :
      (done : Result Bool) (c : Cycle) (store : Store)
      → (released_as done c store).0.budget ≡ store.budget
  unfolding released_as in_phase
  released_unspent (raise e) c store = refl
  released_unspent (ok done) c store = refl

  first_unspent :
      (w : World) (cfg : Config) (c : Cycle) (store : Store) (waiting : List FocusState)
      → (integrate_first w cfg c store waiting).0.budget ≡ store.budget
  unfolding integrate_first integrate_focus in_phase
  first_unspent w cfg c store [] = refl
  first_unspent w cfg c store (fs ∷ rest) =
      let m = merge_agent_branch cfg w.merge store.integration in
      as_unspent m.merged cfg c fs (record store { integration = m.head })

  release_unspent :
      (w : World) (cfg : Config) (c : Cycle) (store : Store) (done : List FocusState)
      → (release_all w cfg c store done).0.budget ≡ store.budget
  unfolding release_all in_phase
  release_unspent w cfg c store [] = refl
  release_unspent w cfg c store (f ∷ fs) =
      let r = release cfg w.release store.integration store.base in
      released_unspent r.released c (record store { integration = r.integration; base = r.base })

  roll_unspent :
      (w : World) (cfg : Config) (c : Cycle) (store : Store)
      → (start_next_cycle w cfg c store).0.budget ≡ store.budget
  unfolding start_next_cycle in_phase
  roll_unspent w cfg c store = ground arith

  handle_unspent :
      (p : CyclePhase) (w : World) (cfg : Config) (c : Cycle) (store : Store)
      → budget_ok cfg w.today store.budget ≡ false
      → (handle p w cfg c store).0.budget ≡ store.budget
  unfolding handle do_plan advance_work do_integrate do_release resume_or_idle
  handle_unspent planning w cfg c store broke = rw (broke, do_plan) refl
  handle_unspent working w cfg c store broke = work_unspent w cfg c store _ broke
  handle_unspent integrating w cfg c store broke = first_unspent w cfg c store _
  handle_unspent releasing w cfg c store broke = release_unspent w cfg c store _
  handle_unspent completed w cfg c store broke = roll_unspent w cfg c store
  handle_unspent halted w cfg c store broke =
      if_both (λ (t : Ticked). t.0.budget ≡ store.budget) cfg.drain (store, ok idle) _ refl
        (roll_unspent w cfg c store)

  budget_lem :
      (cfg : Config) (c : Option Cycle) (today : String) (b : Budget)
      → budget_ok (cfg_for_state cfg c) today b ≡ budget_ok cfg today b
  unfolding budget_ok cfg_for_state
  budget_lem cfg none today b = refl
  budget_lem cfg (some c) today b = elim (Bool-cases (str_eq c.name "")) [
    | inl blank ↦ rw (blank, cfg_for_state) refl
    | inr named ↦ rw (named, cfg_for_state) refl
  ]

  in_unspent :
      (w : World) (cfg : Config) (store : Store) (c : Option Cycle)
      → budget_ok cfg w.today store.budget ≡ false
      → (tick_in w cfg store c).0.budget ≡ store.budget
  unfolding tick_in
  in_unspent w cfg store none broke =
      handle_unspent planning w cfg (record { name = cfg.cycle; phase = planning }) _ broke
  in_unspent w cfg store (some c) broke =
      handle_unspent c.phase w (cfg_for_state cfg (some c)) c store
        (budget_lem cfg (some c) w.today store.budget ∙ broke)

  -- A tick that finds the budget of the day or of the cycle used up spends nothing, in whatever phase
  -- the cycle is.
  pub tick-unspent :
      (w : World) (cfg : Config) (store : Store)
      → budget_ok cfg w.today store.budget ≡ false
      → (tick w cfg store).0.budget ≡ store.budget
  unfolding tick
  tick-unspent w cfg store broke =
      if_both (λ (t : Ticked). t.0.budget ≡ store.budget) store.killed _ _ refl
        (in_unspent w cfg store store.cycle broke)

  as_requeued :
      (cfg : Config) (c : Cycle) (fs : FocusState) (store : Store)
      → suc fs.attempts ≡ cfg.max_build_retries
      → let again : FocusState = record fs { phase = needs_work; attempts = fs.attempts + 1 } in
        ((integrate_as (ok false) cfg c fs store).0.foci ≡ write_focus again store.foci)
        × ((integrate_as (ok false) cfg c fs store).1 ≡ ok (merge_requeue fs.focus))
  unfolding integrate_as in_phase
  as_requeued cfg c fs store last = (ground arith, ground arith)

  -- A focus that could not be merged, and may be built once more, is queued for that with its attempts
  -- raised; the next step it takes kills it before it is built, whatever the budget and the agents say.
  pub requeue-kills :
      (w : World) (cfg : Config) (c : Cycle) (fs : FocusState) (store : Store)
      (stored : Option Float) (affordable : Bool) (out : Outside)
      → (merge_agent_branch cfg w.merge store.integration).merged ≡ ok false
      → suc fs.attempts ≡ cfg.max_build_retries
      → let again : FocusState = record fs { phase = needs_work; attempts = fs.attempts + 1 } in
        ((integrate_focus w cfg c fs store).0.foci ≡ write_focus again store.foci)
        × ((integrate_focus w cfg c fs store).1 ≡ ok (merge_requeue fs.focus))
        × (advance_focus cfg stored again affordable out ≡ kill again none)
  unfolding integrate_focus advance_focus advance_in retry_or_kill
  requeue-kills w cfg c fs store stored affordable out unmerged last =
      let head = (merge_agent_branch cfg w.merge store.integration).head in
      let requeued = as_requeued cfg c fs (record store { integration = head }) last in
      (rw unmerged requeued.0, rw unmerged requeued.1, ground arith)
