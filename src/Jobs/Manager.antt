-- ===== src/Jobs/Manager.antt =====
-- ujin/jobs/manager.py: `JobManager`, the jobs and which of them the engine drives. A `Target` is
-- shared between a handle and the engine; here both hold its value, `T`, and what changes it changes
-- both.
pub mod Armed
use ujin.Prelude.{
  Bool, Result, String, false, if◌then◌else◌, none, not, ok, raise, some, true, ◌&&◌, ◌>>=◌,
}
use ujin.Prelude.Dict.{Dict, lookup, insert, remove}
use ujin.Float.{Float}

pub data Mode : Type 0 where
  adaptive cron once : Mode

pub data State : Type 0 where
  idle running paused finished error : State

pub record JobSpec : Type 0 where
  pub id : String
  pub enabled : Bool
  pub mode : Mode

pub record JobHandle (T : Type 0) : Type 0 where
  pub spec : JobSpec
  pub target : T
  pub is_adaptive : Bool
  pub next_fire : Float
  pub state : State

-- `targets` are those of the engine, `store` the rows of the job store.
pub record JobManager (T : Type 0) : Type 0 where
  pub jobs : Dict (JobHandle T)
  pub targets : Dict T
  pub store : Dict JobSpec

unfoldable pub adaptive_mode : Mode → Bool
adaptive_mode adaptive = true
adaptive_mode _ = false

unfoldable pub cron_mode : Mode → Bool
cron_mode cron = true
cron_mode _ = false

-- store.set_enabled, which changes a row that is there
set_enabled : String → Bool → Dict JobSpec → Dict JobSpec
set_enabled id b store = elim (lookup id store) [
  | none ↦ store
  | some row ↦ insert id (record row { enabled = b }) store
]

module _ {T : Type 0} where
  -- `made` is the target that the source, the pipeline and the schedule give, unless a kind or an
  -- interval is refused; `fire` is what `next_fire` gives. A refusal comes before any change.
  unfoldable pub register : Result T → Result Float → JobSpec → JobManager T → Result (JobManager T)
  unfolding adaptive_mode cron_mode
  register made fire spec m = do
    target ← made
    next ← (if cron_mode spec.mode && spec.enabled then fire else ok 0)
    ok (record m {
      jobs =
          insert spec.id
            (record {
              spec = spec;
              target = target;
              is_adaptive = adaptive_mode spec.mode;
              next_fire = next;
              state = idle;
            })
            m.jobs;
      targets =
          if adaptive_mode spec.mode && spec.enabled
          then insert spec.id target m.targets
          else m.targets;
    })

  -- validated before it is persisted
  unfoldable pub create : Result T → Result Float → JobSpec → JobManager T → Result (JobManager T)
  create made fire spec m = do
    m' ← register made fire spec m
    ok (record m' { store = insert spec.id spec m'.store })

  unfoldable pub delete : String → JobManager T → Bool × JobManager T
  delete id m = elim (lookup id m.jobs) [
    | none ↦ (false, m)
    | some h ↦ (
      true,
      record { jobs = remove id m.jobs; targets = remove id m.targets; store = remove id m.store },
    )
  ]

  unfoldable pub pause : String → JobManager T → Bool × JobManager T
  unfolding set_enabled
  pause id m = elim (lookup id m.jobs) [
    | none ↦ (false, m)
    | some h ↦ (
      true,
      record {
        jobs =
            insert id (record h { spec = record h.spec { enabled = false }; state = paused })
              m.jobs;
        targets = remove id m.targets;
        store = set_enabled id false m.store;
      },
    )
  ]

  -- the handle of a job that is resumed; `rearm` makes its target due now
  unfoldable pub woken : (T → T) → Float → JobHandle T → JobHandle T
  woken rearm next h = record h {
    spec = record h.spec { enabled = true };
    target = if h.is_adaptive then rearm h.target else h.target;
    next_fire = next;
    state = idle;
  }

  unfoldable pub resumed : (T → T) → Float → String → JobHandle T → JobManager T → JobManager T
  unfolding set_enabled woken
  resumed rearm next id h m = record {
    jobs = insert id (woken rearm next h) m.jobs;
    targets = if h.is_adaptive then insert id (rearm h.target) m.targets else m.targets;
    store = set_enabled id true m.store;
  }

  -- The schedule of a cron job is read last, so a refusal leaves the job resumed.
  unfoldable pub resume :
      (T → T) → Result Float → String → JobManager T → Result Bool × JobManager T
  unfolding resumed cron_mode
  resume rearm fire id m = elim (lookup id m.jobs) [
    | none ↦ (ok false, m)
    | some h ↦
        if not h.is_adaptive && cron_mode h.spec.mode
        then elim fire [
          | raise e ↦ (raise e, resumed rearm h.next_fire id h m)
          | ok next ↦ (ok true, resumed rearm next id h m)
        ]
        else (ok true, resumed rearm h.next_fire id h m)
  ]
