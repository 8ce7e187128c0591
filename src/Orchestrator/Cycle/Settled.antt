-- ===== src/Orchestrator/Cycle/Settled.antt =====
-- When the cycle is past its work, no focus is left half done.
use ujin.Prelude.{
  All-both, All-map, ltb, if_both, ap, length-sort_by, ok, zero, arith, length, raise, refl, ◌∙◌,
  Result, inr, sort_by, suc, ◌⊎◌, inl, Bool-cases, ◌∷◌, false, [], none, true, All, some, ◌≡◌, Bool,
  List, str_eq, Option, String, keep_if, ℕ,
}
use ujin.Float.{Float, FloatOps}
use ujin.Orchestrator.State.{
  is_active, budget_ok, FocusState, Config, integrated, CyclePhase, planning, working, integrating,
  releasing, completed, halted,
}
use ujin.Orchestrator.Focus.{kill, moves, Step, Moved, advance_focus}
use ujin.Orchestrator.Merge.{merge_agent_branch, release}
use ujin.Orchestrator.Cycle.{
  integrate_as, released_as, order_of, advance_all, advance_next, written, start_next_cycle,
  resume_or_idle, spend, plan_with, do_plan, work_on, advance_work, integrate_focus,
  integrate_first, do_integrate, release_all, do_release, handle, tick, tick_in,
}
use ujin.Orchestrator.Store.{
  World, Store, Cycle, Item, all_foci, is_approved, Worked, in_phase, cfg_for_state, Ticked,
}
use ujin.Orchestrator.Cycle.Order.{All-write_focus}
use ujin.Orchestrator.Cycle.Keeps.{told_lem, cons_lem}

-- a focus of the cycle is at rest, and, once the merges are done, none waits for its merge
abbrev pub AtRest : String → FocusState → Type 0
AtRest name fs = str_eq fs.cycle name ≡ true → is_active fs.phase ≡ false

abbrev pub NoneWaits : String → FocusState → Type 0
NoneWaits name fs =
    str_eq fs.cycle name ≡ true → (is_active fs.phase ≡ false) × (is_approved fs.phase ≡ false)

abbrev pub SettledIn : CyclePhase → String → List FocusState → Type 0
SettledIn planning name foci = Unit
SettledIn working name foci = Unit
SettledIn integrating name foci = All (AtRest name) foci
SettledIn releasing name foci = All (NoneWaits name) foci
SettledIn completed name foci = All (NoneWaits name) foci
SettledIn halted name foci = All (NoneWaits name) foci

abbrev pub SettledOf : Config → Option Cycle → List FocusState → Type 0
SettledOf cfg none foci = Unit
SettledOf cfg (some c) foci = SettledIn c.phase (cfg_for_state cfg (some c)).cycle foci

-- the foci of the cycle that the store is in
abbrev pub IsSettled : Config → Store → Type 0
IsSettled cfg store = SettledOf cfg store.cycle store.foci

-- none of the cycle's foci passes the test
none_mine :
    (p : FocusState → Bool) (name : String) (foci : List FocusState)
    → keep_if p (all_foci name foci) ≡ []
    → All (λ f. str_eq f.cycle name ≡ true → p f ≡ false) foci
unfolding keep_if all_foci
none_mine p name [] h = tt
none_mine p name (x ∷ xs) h = elim (Bool-cases (str_eq x.cycle name)) [
  | inr other ↦ (λ e. cc, none_mine p name xs (ground arith))
  | inl mine ↦ elim (Bool-cases (p x)) [
    | inl kept ↦ absurd (ground arith)
    | inr left ↦ (λ e. left, none_mine p name xs (ground arith))
  ]
]

none_sorted : (xs : List FocusState) → sort_by (λ f. f.priority) xs ≡ [] → xs ≡ []
none_sorted [] h = refl
none_sorted (x ∷ xs) h =
    let longer : length (sort_by (λ f. f.priority) (x ∷ xs)) ≡ suc (length xs) =
      length-sort_by (λ f. f.priority) (x ∷ xs) in
    let none_there : length (sort_by (λ f. f.priority) (x ∷ xs)) ≡ 0 = ap length h in
    absurd (omega (arith, longer, none_there))

module _ ⦃F : FloatOps⦄ where
  next_cycle_kept :
      (w : World) (cfg : Config) (left : ℕ) (fs : FocusState) (step : Result (Option Step))
      (m : Moved) (store : Store) (next : ℕ → Store → Worked)
      → ((left' : ℕ) (store' : Store) → (next left' store').0.cycle ≡ store'.cycle)
      → (advance_next w cfg left fs step m store next).0.cycle ≡ store.cycle
  unfolding advance_next written
  next_cycle_kept w cfg left fs (raise e) m store next k = refl
  next_cycle_kept w cfg left fs (ok none) m store next k = k (suc left) store
  next_cycle_kept w cfg left fs (ok (some s)) m store next k =
      rw (cons_lem fs.focus s (next left (written w cfg m store))) (k left (written w cfg m store))

  -- the work changes no phase of the cycle
  cycle_kept :
      (w : World) (cfg : Config) (affordable : Bool) (left : ℕ) (order : List FocusState)
      (store : Store)
      → (advance_all w cfg affordable left order store).0.cycle ≡ store.cycle
  unfolding advance_all
  cycle_kept w cfg affordable left [] store = refl
  cycle_kept w cfg affordable zero (fs ∷ order) store = refl
  cycle_kept w cfg affordable (suc left) (fs ∷ order) store =
      let m : Moved = advance_focus cfg store.cov_floor fs affordable (w.about fs.focus) in
      next_cycle_kept w cfg left fs m.step m store
        (λ left' store'. advance_all w cfg affordable left' order store')
        (λ left' store'. cycle_kept w cfg affordable left' order store')

  -- a store that is in the phase `p` of the cycle `c`
  abbrev At : CyclePhase → Cycle → Store → Type 0
  At p c store = store.cycle ≡ some (record c { phase = p })

  free_settled :
      (cfg : Config) (p : CyclePhase) (c : Cycle) (store : Store) (foci : List FocusState)
      → ((p ≡ planning) ⊎ (p ≡ working))
      → store.cycle ≡ some (record c { phase = p })
      → SettledOf cfg store.cycle foci
  free_settled cfg p c store foci (inl e) h = rw (h, e) tt
  free_settled cfg p c store foci (inr e) h = rw (h, e) tt

  plan-IsSettled :
      (w : World) (cfg now : Config) (c : Cycle) (store : Store)
      (answer : Result (List Item × Float))
      → At planning c store
      → IsSettled cfg (plan_with w now c store answer).0
  unfolding plan_with spend in_phase
  plan-IsSettled w cfg now c store (raise e) at =
      free_settled cfg planning c store store.foci (inl refl) at
  plan-IsSettled w cfg now c store (ok ([], cost)) at =
      free_settled cfg planning c store store.foci (inl refl) at
  plan-IsSettled w cfg now c store (ok (item ∷ items, cost)) at = tt

  stays-IsSettled :
      (cfg : Config) (store : Store) (c : Option Cycle)
      → store.cycle ≡ c
      → SettledOf cfg c store.foci
      → IsSettled cfg store
  stays-IsSettled cfg store c at h = rw at h

  planning-IsSettled :
      (w : World) (cfg now : Config) (c : Cycle) (store : Store)
      → At planning c store
      → IsSettled cfg (do_plan w now c store).0
  unfolding do_plan
  planning-IsSettled w cfg now c store at =
      if_both (λ (t : Ticked). IsSettled cfg t.0) _ _ _
        (free_settled cfg planning c store store.foci (inl refl) at)
        (plan-IsSettled w cfg now c store w.planner at)

  work-IsSettled :
      (w : World) (cfg : Config) (c : Cycle) (store : Store) (active : List FocusState)
      → At working c store
      → (active ≡ [] → All (AtRest (cfg_for_state cfg (some c)).cycle) store.foci)
      → IsSettled cfg (work_on w (cfg_for_state cfg (some c)) c store active).0
  unfolding work_on in_phase cfg_for_state
  work-IsSettled w cfg c store [] at none_active = none_active refl
  work-IsSettled w cfg c store (f ∷ fs) at none_active =
      let now : Config = cfg_for_state cfg (some c) in
      let affordable : Bool = budget_ok now w.today store.budget in
      let r : Worked =
        advance_all w now affordable now.max_concurrent (order_of now (f ∷ fs)) store in
      let same : r.0.cycle ≡ store.cycle =
        cycle_kept w now affordable now.max_concurrent (order_of now (f ∷ fs)) store in
      rw (told_lem r) (free_settled cfg working c r.0 r.0.foci (inr refl) (same ∙ at))

  as-IsSettled :
      (merged : Result Bool) (cfg : Config) (c : Cycle) (fs : FocusState) (store : Store)
      → At integrating c store
      → All (AtRest (cfg_for_state cfg (some c)).cycle) store.foci
      → IsSettled cfg (integrate_as merged (cfg_for_state cfg (some c)) c fs store).0
  unfolding integrate_as in_phase kill moves is_active cfg_for_state
  as-IsSettled (raise e) cfg c fs store at h = rw at h
  as-IsSettled (ok true) cfg c fs store at h =
      let R : FocusState → Type 0 = AtRest (cfg_for_state cfg (some c)).cycle in
      rw at (All-write_focus R (record fs { phase = integrated }) store.foci (λ e. refl) h)
  as-IsSettled (ok false) cfg c fs store at h =
      let now : Config = cfg_for_state cfg (some c) in
      let R : FocusState → Type 0 = AtRest now.cycle in
      if_both (λ (t : Ticked). IsSettled cfg t.0) (ltb fs.attempts now.max_build_retries) _ _ tt
        (rw at (All-write_focus R (kill fs none).focus store.foci (λ e. refl) h))

  focus-IsSettled :
      (w : World) (cfg : Config) (c : Cycle) (fs : FocusState) (store : Store)
      → At integrating c store
      → All (AtRest (cfg_for_state cfg (some c)).cycle) store.foci
      → IsSettled cfg (integrate_focus w (cfg_for_state cfg (some c)) c fs store).0
  unfolding integrate_focus
  focus-IsSettled w cfg c fs store at h =
      let m = merge_agent_branch (cfg_for_state cfg (some c)) w.merge store.integration in
      as-IsSettled m.merged cfg c fs (record store { integration = m.head }) at h

  first-IsSettled :
      (w : World) (cfg : Config) (c : Cycle) (store : Store) (waiting : List FocusState)
      → At integrating c store
      → All (AtRest (cfg_for_state cfg (some c)).cycle) store.foci
      → (waiting ≡ [] → All (NoneWaits (cfg_for_state cfg (some c)).cycle) store.foci)
      → IsSettled cfg (integrate_first w (cfg_for_state cfg (some c)) c store waiting).0
  unfolding integrate_first in_phase cfg_for_state
  first-IsSettled w cfg c store [] at h none_waits = none_waits refl
  first-IsSettled w cfg c store (fs ∷ rest) at h none_waits = focus-IsSettled w cfg c fs store at h

  released-IsSettled :
      (done : Result Bool) (cfg : Config) (c : Cycle) (store : Store)
      → At releasing c store
      → All (NoneWaits (cfg_for_state cfg (some c)).cycle) store.foci
      → IsSettled cfg (released_as done c store).0
  unfolding released_as in_phase cfg_for_state
  released-IsSettled (raise e) cfg c store at h = rw at h
  released-IsSettled (ok done) cfg c store at h = h

  release-IsSettled :
      (w : World) (cfg now : Config) (c : Cycle) (store : Store) (done : List FocusState)
      → At releasing c store
      → All (NoneWaits (cfg_for_state cfg (some c)).cycle) store.foci
      → IsSettled cfg (release_all w now c store done).0
  unfolding release_all in_phase cfg_for_state
  release-IsSettled w cfg now c store [] at h = h
  release-IsSettled w cfg now c store (f ∷ fs) at h =
      let r = release now w.release store.integration store.base in
      released-IsSettled r.released cfg c
        (record store { integration = r.integration; base = r.base }) at h

  roll-IsSettled :
      (w : World) (cfg now : Config) (c : Cycle) (store : Store)
      → All (NoneWaits (cfg_for_state cfg (some c)).cycle) store.foci
      → IsSettled cfg (start_next_cycle w now c store).0
  unfolding start_next_cycle in_phase cfg_for_state
  roll-IsSettled w cfg now c store h =
      if_both (λ (t : Ticked). IsSettled cfg t.0) now.drain _ _ h tt

  handle-IsSettled :
      (p : CyclePhase) (w : World) (cfg : Config) (c : Cycle) (store : Store)
      → At p c store
      → SettledIn p (cfg_for_state cfg (some c)).cycle store.foci
      → IsSettled cfg (handle p w (cfg_for_state cfg (some c)) c store).0
  unfolding handle do_plan advance_work do_integrate do_release resume_or_idle cfg_for_state
  handle-IsSettled planning w cfg c store at h =
      planning-IsSettled w cfg (cfg_for_state cfg (some c)) c store at
  handle-IsSettled working w cfg c store at h =
      work-IsSettled w cfg c store _ at
        (λ e. none_mine (λ f. is_active f.phase) (cfg_for_state cfg (some c)).cycle store.foci e)
  handle-IsSettled integrating w cfg c store at h =
      let name : String = (cfg_for_state cfg (some c)).cycle in
      first-IsSettled w cfg c store _ at h (λ e.
        All-map {R = NoneWaits name}
          (λ f (q : AtRest name f × (str_eq f.cycle name ≡ true → is_approved f.phase ≡ false)) m.
            (q.0 m, q.1 m))
          store.foci
          (All-both (AtRest name) (λ f. str_eq f.cycle name ≡ true → is_approved f.phase ≡ false)
            store.foci h (none_mine (λ f. is_approved f.phase) name store.foci (none_sorted _ e))))
  handle-IsSettled releasing w cfg c store at h =
      release-IsSettled w cfg (cfg_for_state cfg (some c)) c store _ at h
  handle-IsSettled completed w cfg c store at h =
      roll-IsSettled w cfg (cfg_for_state cfg (some c)) c store h
  handle-IsSettled halted w cfg c store at h =
      if_both (λ (t : Ticked). IsSettled cfg t.0) _ _ _
        (stays-IsSettled cfg store (some (record c { phase = halted })) at h)
        (roll-IsSettled w cfg (cfg_for_state cfg (some c)) c store h)

  tick_in-IsSettled :
      (w : World) (cfg : Config) (store : Store) (c : Option Cycle)
      → store.cycle ≡ c
      → SettledOf cfg c store.foci
      → IsSettled cfg (tick_in w cfg store c).0
  unfolding tick_in
  tick_in-IsSettled w cfg store none at h =
      let c : Cycle = record { name = cfg.cycle; phase = planning } in
      planning-IsSettled w cfg cfg c (record store { cycle = some c }) refl
  tick_in-IsSettled w cfg store (some c) at h = handle-IsSettled c.phase w cfg c store at h

  -- A tick keeps the cycle settled, whatever the agents, git and the gates answer or raise: once the
  -- cycle integrates, none of its foci is active, and once it releases, is completed or halted, none
  -- waits for its merge either.
  pub tick-IsSettled :
      (w : World) (cfg : Config) (store : Store)
      → IsSettled cfg store
      → IsSettled cfg (tick w cfg store).0
  unfolding tick
  tick-IsSettled w cfg store h =
      if_both (λ (t : Ticked). IsSettled cfg t.0) store.killed _ _ h
        (tick_in-IsSettled w cfg store store.cycle refl h)
