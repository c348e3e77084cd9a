-- ===== src/Leases/Terminal.antt =====
-- A job that is completed or failed stays as it is.
use voxbench.Base.{
  ℕ, ◌≡◌, refl, sym, ap, subst, ◌∙◌, Bool, true, false, Option, some, List, arith, some_inj,
}
use voxbench.JobQueue.Row.{RunJobState, completed, failed, RunJob}
use voxbench.JobQueue.Statements.{is_exhausted, is_claimable}
use voxbench.JobQueue.Operations.{is_active}
use voxbench.JobQueue.Invariant.{IsValid}
use voxbench.JobQueue.Rows.{job}
use voxbench.Repository.{may_commit}
use voxbench.Leases.Rows.{
  RowStep, exhausts, leases, extends, closes, fails, finishes, RowSteps, stays, then_, JobSteps,
  moves, missing, added,
}
use voxbench.Leases.Moves.{Step-JobSteps}
use voxbench.Leases.Validity.{reach-IsValid}
use voxbench.Leases.Steps.{World, Reach, here, next}

abbrev pub is_terminal : RunJobState → Bool
is_terminal completed = true
is_terminal failed = true
is_terminal _ = false

module _ {R : Type 0} {m : ℕ} {issued : List ℕ} where
  RowStep-terminal : {r s : RunJob} → RowStep R m issued r s → is_terminal r.state ≡ true → ⊥
  unfolding is_exhausted is_claimable is_active may_commit
  RowStep-terminal (exhausts now e) h = ground arith
  RowStep-terminal (leases w k e now c _) h = ground arith
  RowStep-terminal (extends j k now w e a) h = ground arith
  RowStep-terminal (closes j k now w a) h = ground arith
  RowStep-terminal (fails j k now w al re av a) h = ground arith
  RowStep-terminal (finishes j i k now w run a) h = ground arith

  RowSteps-terminal : {r s : RunJob} → RowSteps R m issued r s → is_terminal r.state ≡ true → r ≡ s
  RowSteps-terminal stays h = refl
  RowSteps-terminal {r = r} (then_ p x) h =
      let e = RowSteps-terminal p h in
      absurd (RowStep-terminal x (subst (λ (y : RunJob). is_terminal y.state ≡ true) e h))

  JobSteps-terminal :
      {o o' : Option RunJob} {row : RunJob}
      → JobSteps R m issued o o'
      → o ≡ some row
      → is_terminal row.state ≡ true
      → o' ≡ some row
  JobSteps-terminal {row = row} (moves {r = r} p) e h =
      let same = some_inj r row e in
      ap some (
        sym (RowSteps-terminal p (subst (λ (y : RunJob). is_terminal y.state ≡ true) (sym same) h))
        ∙ same)
  JobSteps-terminal missing e h = e
  JobSteps-terminal (added a b c p) e h = cc

-- From a valid table, whatever transactions run, a job that is completed or failed keeps its whole
-- row.
pub reach_terminal :
    {R : Type 0} (m : ℕ) {w u : World R} (i : ℕ) (row : RunJob)
    → IsValid m w.db.jobs
    → Reach m w u
    → job i w.db.jobs ≡ some row
    → is_terminal row.state ≡ true
    → job i u.db.jobs ≡ some row
reach_terminal m i row v here e h = e
reach_terminal m i row v (next r st) e h =
    JobSteps-terminal (Step-JobSteps m i st (reach-IsValid m r v)) (reach_terminal m i row v r e h)
      h
