-- ===== src/Jobs/Manager/Armed.antt =====
-- The engine drives the adaptive jobs that are enabled, and no other.
use ujin.Prelude.{
  Bool, Bool-cases, Option, Option-cases, Result, Result-cases, String, [], arith, eq_iff, false,
  if◌then◌else◌, inl, inr, none, not, ok, raise, refl, some, str_eq, sym, true, ◌&&◌, ◌∙◌, ◌≡◌,
}
use mathlib.Core.Path.{subst}
use ujin.Jobs.Manager.{
  idle, JobSpec, JobHandle, JobManager, adaptive_mode, register, delete, pause, resume, resumed,
  woken, cron_mode,
}
use ujin.Float.{Float}
use ujin.Prelude.Dict.{Dict, lookup, insert, remove, lookup-insert, lookup-remove}

module _ {T : Type 0} where
  unfoldable pub armed : Option (JobHandle T) → Option T
  armed none = none
  armed (some h) = if h.is_adaptive && h.spec.enabled then some h.target else none

  targets_or : JobManager T → Result (JobManager T) → Dict T
  targets_or m (ok m') = m'.targets
  targets_or m (raise e) = m.targets

  unfoldable pub Agrees : Dict (JobHandle T) → Dict T → Type 0
  Agrees jobs targets = (id : String) → lookup id targets ≡ armed (lookup id jobs)

  -- Each job's target is with the engine just when the job is adaptive and enabled.
  unfoldable pub IsArmed : JobManager T → Type 0
  IsArmed m = Agrees m.jobs m.targets

  Agrees-insert :
      (id : String) (j : JobHandle T) (t : T) (jobs : Dict (JobHandle T)) (targets : Dict T)
      → Agrees jobs targets
      → armed (some j) ≡ some t
      → Agrees (insert id j jobs) (insert id t targets)
  unfolding Agrees
  Agrees-insert id j t jobs targets h a other =
      rw (lookup-insert id other j jobs, lookup-insert id other t targets)
        (elim (Bool-cases (str_eq id other)) [
          | inl same ↦ rw same (sym a)
          | inr apart ↦ rw apart (h other)
        ])

  Agrees-remove :
      (id : String) (j : JobHandle T) (jobs : Dict (JobHandle T)) (targets : Dict T)
      → Agrees jobs targets
      → armed (some j) ≡ none
      → Agrees (insert id j jobs) (remove id targets)
  unfolding Agrees
  Agrees-remove id j jobs targets h a other =
      rw (lookup-insert id other j jobs, lookup-remove id other targets)
        (elim (Bool-cases (str_eq id other)) [
          | inl same ↦ rw same (sym a)
          | inr apart ↦ rw apart (h other)
        ])

  Agrees-remove_both :
      (id : String) (jobs : Dict (JobHandle T)) (targets : Dict T)
      → Agrees jobs targets
      → Agrees (remove id jobs) (remove id targets)
  unfolding Agrees armed
  Agrees-remove_both id jobs targets h other =
      rw (lookup-remove id other jobs, lookup-remove id other targets)
        (elim (Bool-cases (str_eq id other)) [
          | inl same ↦ rw same refl
          | inr apart ↦ rw apart (h other)
        ])

  Agrees-insert_handle :
      (id : String) (j : JobHandle T) (jobs : Dict (JobHandle T)) (targets : Dict T)
      → Agrees jobs targets
      → armed (some j) ≡ none
      → lookup id targets ≡ none
      → Agrees (insert id j jobs) targets
  unfolding Agrees
  Agrees-insert_handle id j jobs targets h a off other =
      rw (lookup-insert id other j jobs) (elim (Bool-cases (str_eq id other)) [
        | inl same ↦
            let at_id : id ≡ other = (eq_iff id other).0 same in rw same (rw at_id at off ∙ sym a)
        | inr apart ↦ rw apart (h other)
      ])

  Agrees-insert_if :
      (on : Bool) (id : String) (j : JobHandle T) (t : T) (jobs : Dict (JobHandle T))
      (targets : Dict T)
      → Agrees jobs targets
      → armed (some j) ≡ (if on then some t else none)
      → (on ≡ false → lookup id targets ≡ none)
      → Agrees (insert id j jobs) (if on then insert id t targets else targets)
  Agrees-insert_if true id j t jobs targets h a off = Agrees-insert id j t jobs targets h a
  Agrees-insert_if false id j t jobs targets h a off =
      Agrees-insert_handle id j jobs targets h a (off refl)

  pause-IsArmed : (id : String) (m : JobManager T) → IsArmed m → IsArmed (pause id m).1
  unfolding IsArmed Agrees armed pause
  pause-IsArmed id m h = elim (Option-cases (lookup id m.jobs)) [
    | inl missing ↦ rw (missing, pause) h
    | inr (j, found) ↦ rw (found, pause) (Agrees-remove id _ m.jobs m.targets h (ground arith))
  ]

  delete-IsArmed : (id : String) (m : JobManager T) → IsArmed m → IsArmed (delete id m).1
  unfolding IsArmed Agrees delete
  delete-IsArmed id m h = elim (Option-cases (lookup id m.jobs)) [
    | inl missing ↦ rw (missing, delete) h
    | inr (j, found) ↦ rw (found, delete) (Agrees-remove_both id m.jobs m.targets h)
  ]

  resumed_agrees :
      (rearm : T → T) (next : Float) (id : String) (j : JobHandle T) (m : JobManager T)
      → IsArmed m
      → lookup id m.jobs ≡ some j
      → IsArmed (resumed rearm next id j m)
  unfolding IsArmed Agrees armed woken resumed
  resumed_agrees rearm next id j m h found =
      Agrees-insert_if j.is_adaptive id (woken rearm next j) (rearm j.target) m.jobs m.targets h
        (ground arith) (λ other. h id ∙ rw found (rw other refl))

  resume-IsArmed :
      (rearm : T → T) (fire : Result Float) (id : String) (m : JobManager T)
      → IsArmed m
      → IsArmed (resume rearm fire id m).1
  unfolding resume
  resume-IsArmed rearm fire id m h = elim (Option-cases (lookup id m.jobs)) [
    | inl missing ↦ rw (missing, resume) h
    | inr (j, found) ↦
        let fine : (next : Float) → IsArmed (resumed rearm next id j m) =
          λ next. resumed_agrees rearm next id j m h found in
        elim (Bool-cases (not j.is_adaptive && cron_mode j.spec.mode)) [
          | inr plain ↦ rw (found, plain, resume) (fine j.next_fire)
          | inl timed ↦ elim (Result-cases fire) [
            | inl (err, bad) ↦ rw (found, timed, bad, resume) (fine j.next_fire)
            | inr (next, good) ↦ rw (found, timed, good, resume) (fine next)
          ]
        ]
  ]

  -- A job under a new id is with the engine just when it is adaptive and enabled.
  register-IsArmed :
      (target : T) (fire : Result Float) (spec : JobSpec) (m m' : JobManager T)
      → IsArmed m
      → lookup spec.id m.jobs ≡ none
      → register (ok target) fire spec m ≡ ok m'
      → IsArmed m'
  unfolding IsArmed Agrees register armed
  register-IsArmed target fire spec m m' h new e =
      elim (Result-cases (if cron_mode spec.mode && spec.enabled then fire else ok 0)) [
        | inl (err, bad) ↦ cc (rw (bad, register) at e)
        | inr (next, good) ↦
            let built : JobManager T = record m {
              jobs =
                  insert spec.id
                    (record {
                      spec = spec;
                      target = target;
                      is_adaptive = adaptive_mode spec.mode;
                      next_fire = next;
                      state = idle;
                    })
                    m.jobs;
              targets =
                  if adaptive_mode spec.mode && spec.enabled
                  then insert spec.id target m.targets
                  else m.targets;
            } in
            let same : built ≡ m' = cc (rw (good, register) at e) in
            let agrees : Agrees built.jobs built.targets =
              Agrees-insert_if (adaptive_mode spec.mode && spec.enabled) spec.id _ target m.jobs
                m.targets h (ground arith) (λ off. h spec.id ∙ rw new refl) in
            subst (λ x. Agrees x.jobs x.targets) same agrees
      ]

  -- the managers that calls lead to from an empty one, with a new id for each job that is registered
  pub data Reachable : JobManager T → Type 0 where
    fresh : Reachable (record { jobs = []; targets = []; store = [] })
    registers :
        (target : T) (fire : Result Float) (spec : JobSpec) {m m' : JobManager T}
        → Reachable m
        → lookup spec.id m.jobs ≡ none
        → register (ok target) fire spec m ≡ ok m'
        → Reachable m'
    pauses : (id : String) {m : JobManager T} → Reachable m → Reachable (pause id m).1
    resumes :
        (rearm : T → T) (fire : Result Float) (id : String) {m : JobManager T}
        → Reachable m
        → Reachable (resume rearm fire id m).1
    deletes : (id : String) {m : JobManager T} → Reachable m → Reachable (delete id m).1

  -- Whatever jobs are registered under new ids, paused, resumed and deleted, in any order, the engine
  -- has the targets of the adaptive jobs that are enabled, and no other.
  pub Reachable-IsArmed : (m : JobManager T) → Reachable m → IsArmed m
  unfolding IsArmed Agrees armed lookup
  Reachable-IsArmed _ fresh = λ id. refl
  Reachable-IsArmed _ (registers target fire spec {m} {m'} r new e) =
      register-IsArmed target fire spec m m' (Reachable-IsArmed m r) new e
  Reachable-IsArmed _ (pauses id {m} r) = pause-IsArmed id m (Reachable-IsArmed m r)
  Reachable-IsArmed _ (resumes rearm fire id {m} r) =
      resume-IsArmed rearm fire id m (Reachable-IsArmed m r)
  Reachable-IsArmed _ (deletes id {m} r) = delete-IsArmed id m (Reachable-IsArmed m r)
