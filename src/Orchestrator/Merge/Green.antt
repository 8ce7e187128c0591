-- ===== src/Orchestrator/Merge/Green.antt =====
-- The integration branch and the base branch move only to what has passed the gates, unless the gates
-- raise.
use ujin.Prelude.{
  [], ◌∷◌, List, inl, none, ◌⊎◌, Bool, String, false, inr, some, true, Option, Option-cases, drop,
  ◌≡◌, Result, ok, raise, Error, refl, Bool-cases, sym,
}
use ujin.Orchestrator.Gates.{run_gates, gate_passed}
use mathlib.Core.Path.{subst}
use ujin.Orchestrator.State.{Config, Test}
use ujin.Orchestrator.Merge.{
  Commits, MergeRun, Merged, triage_conflicts, unmerged, regate, conflicted, merge_in, merge_at,
  merge_agent_branch, ReleaseRun, commits_after, finalize, finalize_in, regate_release, release,
  release_from, merge_release, merge_base,
}

-- what git merged, or what the triage solved and git committed
abbrev pub IsCandidate : MergeRun → Commits → Type 0
IsCandidate run after =
    (run.merge ≡ some after)
    ⊎ (run.merge ≡ none) × (run.triage ≡ some (ok true)) × (run.commit ≡ some after)

-- what a merge has said, given where the head was
abbrev pub IsGreen : Config → MergeRun → Commits → Merged → Type 0
IsGreen cfg run head m =
    ((m.merged ≡ ok true)
      × IsCandidate run m.head
      × ((test : Test) × (run_gates run.gates cfg.coverage_floor ≡ ok test)
          × (gate_passed test ≡ true)))
    ⊎ ((m.merged ≡ ok false) × (m.head ≡ head))
    ⊎ ((e : Error) × (m.merged ≡ raise e)
        × ((m.head ≡ head)
            ⊎ IsCandidate run m.head × (run_gates run.gates cfg.coverage_floor ≡ raise e)))

regate_lem :
    (cfg : Config) (run : MergeRun) (head after : Commits) (verdict : Result Test)
    → run_gates run.gates cfg.coverage_floor ≡ verdict
    → IsCandidate run after
    → IsGreen cfg run head (regate verdict head after)
unfolding regate unmerged
regate_lem cfg run head after (raise e) said h = inr (inr (e, refl, inr (h, said)))
regate_lem cfg run head after (ok test) said h = elim (Bool-cases (gate_passed test)) [
  | inl green ↦ rw (green, regate) (inl (refl, h, (test, said, green)))
  | inr red ↦ rw (red, regate) (inr (inl (refl, refl)))
]

triage_lem :
    (answer : Option (Result Bool)) (files : List String)
    → triage_conflicts answer files ≡ ok true
    → answer ≡ some (ok true)
unfolding triage_conflicts
triage_lem answer [] h = cc
triage_lem none (c ∷ cs) h = cc
triage_lem (some solved) (c ∷ cs) h = cc

conflict_lem :
    (cfg : Config) (run : MergeRun) (head : Commits) (solved : Result Bool)
    → run.merge ≡ none
    → triage_conflicts run.triage run.conflicts ≡ solved
    → IsGreen cfg run head (conflicted cfg run head solved)
unfolding conflicted unmerged
conflict_lem cfg run head (raise e) broken said = inr (inr (e, refl, inl refl))
conflict_lem cfg run head (ok false) broken said = inr (inl (refl, refl))
conflict_lem cfg run head (ok true) broken said = elim (Option-cases run.commit) [
  | inl failed ↦ rw (failed, conflicted) (inr (inl (refl, refl)))
  | inr (after, made) ↦
      let goes : conflicted cfg run head (ok true)
          ≡ regate (run_gates run.gates cfg.coverage_floor) head after =
        simp (made, conflicted) refl in
      subst (IsGreen cfg run head) (sym goes) (
        regate_lem cfg run head after _ refl
          (inr (broken, triage_lem run.triage run.conflicts said, made)))
]

merged_lem :
    (cfg : Config) (run : MergeRun) (head : Commits) (after : Option Commits)
    → run.merge ≡ after
    → IsGreen cfg run head (merge_in cfg run head after)
unfolding merge_in
merged_lem cfg run head (some after) is = regate_lem cfg run head after _ refl (inl is)
merged_lem cfg run head none is = conflict_lem cfg run head _ is refl

at_lem :
    (cfg : Config) (run : MergeRun) (head : Commits) (made : Result (Unit {0}))
    → IsGreen cfg run head (merge_at cfg run head made)
unfolding merge_at
at_lem cfg run head (raise e) = inr (inr (e, refl, inl refl))
at_lem cfg run head (ok done) = merged_lem cfg run head run.merge refl

-- The merge of an agent's branch says that it has merged, and leaves what git merged, or what the
-- triage solved and git committed, when the gates pass at the configured floor; or it says that it has
-- not merged and leaves the integration branch where it was; or it raises. Where it raises, the branch
-- is where it was, or it is what was merged and it is the gates that have raised: then it stays there,
-- although no gate has passed.
pub merge_agent_branch-IsGreen :
    (cfg : Config) (run : MergeRun) (head : Commits)
    → IsGreen cfg run head (merge_agent_branch cfg run head)
unfolding merge_agent_branch
merge_agent_branch-IsGreen cfg run head = at_lem cfg run head run.worktree

-- Where git has merged an agent's branch and the gates raise, the integration branch stays at what git
-- has merged.
pub merge_agent_branch-raises :
    (cfg : Config) (run : MergeRun) (head after : Commits) (done : Unit {0}) (e : Error)
    → run.worktree ≡ ok done
    → run.merge ≡ some after
    → run.gates ≡ raise e
    → merge_agent_branch cfg run head ≡ record { head = after; merged = raise e }
unfolding merge_agent_branch merge_at merge_in regate run_gates
merge_agent_branch-raises cfg run head after done e made merged broken =
    simp (made, merged, broken, merge_at, merge_in, regate, run_gates) refl

-- A release whose files are stamped, committed and not green leaves both branches where they were and
-- releases nothing.
pub release-red :
    (cfg : Config) (run : ReleaseRun) (integration base : Commits) (c : String) (test : Test)
    → run.touched ≡ ok true
    → run.commit ≡ some c
    → run_gates run.gates cfg.coverage_floor ≡ ok test
    → gate_passed test ≡ false
    → release cfg run integration base
      ≡ record { integration = integration; base = base; released = ok false; pushed = false }
unfolding release finalize finalize_in regate_release release_from commits_after drop
release-red cfg run integration base c test touched committed judged red =
    simp
      (
        touched, committed, judged, red, finalize_in, commits_after, regate_release, release_from,
        drop,
      )
      refl

-- A release says that it has released, with the base branch left as it was, where git could not merge
-- the integration branch into it, in a run that is fully automatic and stamps nothing.
pub release-conflict :
    (cfg : Config) (run : ReleaseRun) (integration base : Commits) (made said : Unit {0})
    → run.touched ≡ ok false
    → cfg.full_auto ≡ true
    → run.worktree ≡ ok made
    → run.head ≡ ok said
    → run.merge ≡ none
    → ((release cfg run integration base).released ≡ ok true)
      × ((release cfg run integration base).base ≡ base)
unfolding release finalize finalize_in release_from merge_release merge_base
release-conflict cfg run integration base made said fresh auto there told conflict =
    simp (fresh, auto, there, told, conflict, finalize_in, release_from, merge_release, merge_base)
      (refl, refl)
