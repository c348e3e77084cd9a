-- ===== src/Leases/Validity.antt =====
-- Every transaction keeps the job table valid.
use voxbench.Base.{ℕ, String, inl, inr, Option-cases, first_where, first_where-mem, All-mem, arith}
use voxbench.JobQueue.Row.{RunJob}
use voxbench.JobQueue.Operations.{is_active, extend_row, close_row}
use voxbench.JobQueue.Invariant.{IsWell, IsValid, write_row-IsValid}
use voxbench.JobQueue.Kept.{
  extend_row-KeepsKeys, close_row-KeepsKeys, claim_job-IsValid, update_one-IsValid,
  fail_job-IsValid, insert_job-IsValid, new_job-IsWell, extend_row-IsWell, close_row-IsWell,
}
use voxbench.JobQueue.Operations.{new_job}
use voxbench.Repository.{StoredRun, Database, may_commit, finish_row, commit_job}
use voxbench.Repository.Commit.{finish_row-KeepsKeys}
use voxbench.Leases.Steps.{World, Step, Reach, here, next, step_cases}

finish_row-IsWell :
    {R : Type 0} {m : ℕ} (run : StoredRun R) (row : RunJob)
    → IsWell m row
    → IsWell m (finish_row run row)
unfolding finish_row
finish_row-IsWell run row h = ground arith

commit_job-IsValid :
    {R : Type 0} {m : ℕ} (j r k now : ℕ) (w : String) (run : StoredRun R) (db : Database R)
    → IsValid m db.jobs
    → IsValid m (commit_job j r k run w now db).0.jobs
unfolding commit_job
commit_job-IsValid j r k now w run db v =
    elim (Option-cases (first_where (may_commit j r k w now) db.jobs)) [
      | inl e ↦ rw (e, commit_job) v
      | inr (row, e) ↦
          let (mem, _) = first_where-mem (may_commit j r k w now) db.jobs row e in
          rw (e, commit_job)
            (write_row-IsValid (finish_row run) db.jobs row (finish_row-KeepsKeys run) mem
              (finish_row-IsWell run row (All-mem _ _ v.rows mem)) v)
    ]

-- One transaction, by any worker or client with any arguments, keeps the table valid.
pub Step-IsValid :
    {R : Type 0} (m : ℕ) {w u : World R} → Step m w u → IsValid m w.db.jobs → IsValid m u.db.jobs
unfolding new_job
Step-IsValid m {w = w} st v =
    step_cases m (IsValid m) v
      (λ ex id run now c t' fresh e.
        insert_job-IsValid m ex (new_job id run now c) _ t' e (new_job-IsWell m id run now c) fresh
          v)
      (λ worker e now token locked fresh. claim_job-IsValid m worker e now token locked _ v)
      (λ j k now worker e.
        update_one-IsValid m (is_active j k worker now) (extend_row e) _ (extend_row-KeepsKeys e)
          (λ row. extend_row-IsWell m e j k now worker row) v)
      (λ j k now worker.
        update_one-IsValid m (is_active j k worker now) close_row _ close_row-KeepsKeys
          (λ row _. close_row-IsWell m row) v)
      (λ j k now worker a re at. fail_job-IsValid m (is_active j k worker now) a re at _ v)
      (λ j r k now worker run. commit_job-IsValid j r k now worker run w.db v) st

-- Every world that transactions reach from a valid table has a valid table: ids and runs occur
-- once, a row has an owner, a token and an expiry exactly while it is leased, and attempts stay
-- within the limit.
pub reach-IsValid :
    {R : Type 0} (m : ℕ) {w u : World R} → Reach m w u → IsValid m w.db.jobs → IsValid m u.db.jobs
reach-IsValid m here v = v
reach-IsValid m (next r st) v = Step-IsValid m st (reach-IsValid m r v)
