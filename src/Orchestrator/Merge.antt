-- ===== src/Orchestrator/Merge.antt =====
-- orchestrator/merge.py: the merge of an agent's branch into the integration branch, and of that into
-- the base branch. A branch is its commits, the newest first. What git, the gates and the triage
-- answer is given; `git merge --abort` and `git reset --hard` do what they are asked.
pub mod Green
use ujin.Prelude.{
  ◌>>=◌, [], drop, ◌∷◌, String, false, none, true, ◌&&◌, Bool, List, Option, if◌then◌else◌, some, ℕ,
  Error, Result, ok, raise,
}
use ujin.Orchestrator.Gates.{GateRun, run_gates, gate_passed}
use ujin.Orchestrator.State.{Config, Test}

abbrev pub Commits : Type 0
Commits = List String

-- `worktree` is the head of the integration worktree, or the error that making it or `rev-parse`
-- raises. `merge` and `commit` are the commits that the command leaves, `none` where it fails. A
-- backend with no `run_triage` has no `triage`.
pub record MergeRun : Type 0 where
  pub worktree : Result (Unit {0})
  pub merge : Option Commits
  pub conflicts : List String
  pub triage : Option (Result Bool)
  pub commit : Option Commits
  pub gates : Result GateRun

pub record Merged : Type 0 where
  pub head : Commits
  pub merged : Result Bool

triage_conflicts : Option (Result Bool) → List String → Result Bool
triage_conflicts answer [] = ok false
triage_conflicts none (c ∷ cs) = ok false
triage_conflicts (some solved) (c ∷ cs) = solved

unmerged : Commits → Merged
unmerged head_before = record { head = head_before; merged = ok false }

-- the merged head passes the gates, or it is reset; where the gates raise it is left as it is
unfoldable pub regate : Result Test → Commits → Commits → Merged
unfolding unmerged
regate (raise e) head_before head = record { head = head; merged = raise e }
regate (ok test) head_before head =
    if gate_passed test then record { head = head; merged = ok true } else unmerged head_before

-- a conflict, by what the triage says
conflicted : Config → MergeRun → Commits → Result Bool → Merged
unfolding regate unmerged
conflicted cfg run head_before (raise e) = record { head = head_before; merged = raise e }
conflicted cfg run head_before (ok false) = unmerged head_before
conflicted cfg run head_before (ok true) = elim run.commit [
  | some head ↦ regate (run_gates run.gates cfg.coverage_floor) head_before head
  | none ↦ unmerged head_before
]

merge_in : Config → MergeRun → Commits → Option Commits → Merged
unfolding regate conflicted triage_conflicts
merge_in cfg run head_before (some head) =
    regate (run_gates run.gates cfg.coverage_floor) head_before head
merge_in cfg run head_before none =
    conflicted cfg run head_before (triage_conflicts run.triage run.conflicts)

merge_at : Config → MergeRun → Commits → Result (Unit {0}) → Merged
unfolding merge_in
merge_at cfg run head_before (raise e) = record { head = head_before; merged = raise e }
merge_at cfg run head_before (ok done) = merge_in cfg run head_before run.merge

unfoldable pub merge_agent_branch : Config → MergeRun → Commits → Merged
unfolding merge_at
merge_agent_branch cfg run head_before = merge_at cfg run head_before run.worktree

-- `touched`: the version or the changelog was stamped, or what making the worktree or reading and
-- writing the files raises. `worktree` is that of the release; `head` is what `rev-parse` says after
-- the merge. The commands as above.
pub record ReleaseRun : Type 0 where
  pub touched : Result Bool
  pub commit : Option String
  pub gates : Result GateRun
  pub worktree : Result (Unit {0})
  pub merge : Option Commits
  pub head : Result (Unit {0})
  pub push : Bool

pub record Released : Type 0 where
  pub integration : Commits
  pub base : Commits
  pub released : Result Bool
  pub pushed : Bool

commits_after : Option String → Commits → Commits
commits_after none head = head
commits_after (some c) head = c ∷ head

-- what is left of the release where its finished files do not pass the gates
pub record Finalized : Type 0 where
  pub head : Commits
  pub green : Result Bool

regate_release : Result Test → Commits → Finalized
regate_release (raise e) head = record { head = head; green = raise e }
regate_release (ok test) head =
    if gate_passed test
    then record { head = head; green = ok true }
    else record { head = drop 1 head; green = ok false }

finalize_in : Config → ReleaseRun → Commits → Result Bool → Finalized
unfolding regate_release commits_after
finalize_in cfg run head (raise e) = record { head = head; green = raise e }
finalize_in cfg run head (ok false) = record { head = head; green = ok true }
finalize_in cfg run head (ok true) =
    regate_release (run_gates run.gates cfg.coverage_floor) (commits_after run.commit head)

unfoldable pub finalize : Config → ReleaseRun → Commits → Finalized
unfolding finalize_in
finalize cfg run head = finalize_in cfg run head run.touched

merge_base : Option Commits → Commits → Commits
merge_base none base = base
merge_base (some merged) base = merged

is_ok : Result (Unit {0}) → Bool
is_ok (ok done) = true
is_ok (raise e) = false

-- the integration branch is merged into the base branch
merge_release : Config → ReleaseRun → Commits → Commits → Result (Unit {0}) → Released
unfolding merge_base is_ok
merge_release cfg run integration base (raise e) = record {
  integration = integration;
  base = base;
  released = raise e;
  pushed = false;
}
merge_release cfg run integration base (ok done) = record {
  integration = integration;
  base = merge_base run.merge base;
  released = run.head >>= λ said. ok true;
  pushed = is_ok run.head && (cfg.push_on_release && run.push);
}

release_from : Config → ReleaseRun → Finalized → Commits → Released
unfolding merge_release
release_from cfg run done base = elim done.green [
  | raise e ↦ record { integration = done.head; base = base; released = raise e; pushed = false }
  | ok green ↦
      if green && cfg.full_auto
      then merge_release cfg run done.head base run.worktree
      else record { integration = done.head; base = base; released = ok false; pushed = false }
]

unfoldable pub release : Config → ReleaseRun → Commits → Commits → Released
unfolding finalize release_from
release cfg run integration base = release_from cfg run (finalize cfg run integration) base
