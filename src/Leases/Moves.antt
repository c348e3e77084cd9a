-- ===== src/Leases/Moves.antt =====
-- Every transaction moves each job along the state machine, and keeps the table valid.
use voxbench.Base.{
  ℕ, ◌≡◌, refl, subst, String, Bool, Option, none, some, List, [], ◌∷◌, ◌++◌, ◌==◌, inl, inr,
  Bool-cases, Option-cases, first_where, first_where-mem,
}
use voxbench.JobQueue.Row.{RunJob, Table, queued}
use voxbench.JobQueue.Statements.{is_exhausted, expire, expire_exhausted_jobs, claim_statement}
use voxbench.JobQueue.Operations.{
  new_job, insert_job, lease_row, claim_job, is_active, extend_row, close_row, fail_row, fail_job,
}
use voxbench.JobQueue.Rows.{Absent, job}
use voxbench.JobQueue.Invariant.{IsValid}
use voxbench.JobQueue.Kept.{
  expire-KeepsKeys, lease_row-KeepsKeys, extend_row-KeepsKeys, close_row-KeepsKeys,
  fail_row-KeepsKeys, claim_statement-mem, expire_exhausted_jobs-IsValid, insert_job-some,
}
use voxbench.Repository.{StoredRun, Database, may_commit, finish_row, commit_job}
use voxbench.Repository.Commit.{finish_row-KeepsKeys}
use voxbench.Leases.Rows.{
  exhausts, leases, extends, closes, fails, finishes, RowSteps, stays, then_, JobSteps, moves,
  missing, added, JobSteps-same, update_where-JobSteps, write_row-JobSteps,
}
use voxbench.Leases.Steps.{World, Step, step_cases}

module _ {R : Type 0} {m : ℕ} {issued : List ℕ} where
  RowSteps-trans :
      {r s t : RunJob} → RowSteps R m issued r s → RowSteps R m issued s t → RowSteps R m issued r t
  RowSteps-trans p stays = p
  RowSteps-trans p (then_ q x) = then_ (RowSteps-trans p q) x

  JobSteps-trans :
      {a b c : Option RunJob}
      → JobSteps R m issued a b
      → JobSteps R m issued b c
      → JobSteps R m issued a c
  JobSteps-trans (moves p) (moves q) = moves (RowSteps-trans p q)
  JobSteps-trans missing q = q
  JobSteps-trans (added a b c p) (moves q) = added a b c (RowSteps-trans p q)

  append-JobSteps :
      (new : RunJob) (t : Table) (i : ℕ)
      → new.state ≡ queued
      → new.lease_token ≡ none
      → new.attempts ≡ 0
      → JobSteps R m issued (job i t) (job i (t ++ new ∷ []))
  unfolding job
  append-JobSteps new [] i a b c = elim (Bool-cases (new.id == i)) [
    | inl on ↦ rw on (added a b c stays)
    | inr off ↦ rw off missing
  ]
  append-JobSteps new (r ∷ t) i a b c = elim (Bool-cases (r.id == i)) [
    | inl on ↦ rw on (moves stays)
    | inr off ↦ rw off (append-JobSteps new t i a b c)
  ]

  insert_job-JobSteps :
      (run_exists : Bool) (id run now created_at : ℕ) (t t' : Table) (i : ℕ)
      → insert_job run_exists (new_job id run now created_at) t ≡ some t'
      → JobSteps R m issued (job i t) (job i t')
  unfolding new_job
  insert_job-JobSteps run_exists id run now created_at t t' i e =
      let (same, _) = insert_job-some m run_exists (new_job id run now created_at) t t' e in
      subst (λ u. JobSteps R m issued (job i t) (job i u)) same
        (append-JobSteps (new_job id run now created_at) t i refl refl refl)

  expire-JobSteps :
      (now : ℕ) (t : Table) (i : ℕ)
      → JobSteps R m issued (job i t) (job i (expire_exhausted_jobs now m t))
  unfolding expire_exhausted_jobs
  expire-JobSteps now t i =
      update_where-JobSteps (is_exhausted now m) expire t i expire-KeepsKeys (λ r e. exhausts now e)

  claim_job-JobSteps :
      (w : String) (expires_at now token : ℕ) (locked : ℕ → Bool) (t : Table) (i : ℕ)
      → Absent token issued
      → IsValid m t
      → JobSteps R m issued (job i t) (job i (claim_job m w expires_at now token locked t).0)
  unfolding claim_job
  claim_job-JobSteps w expires_at now token locked t i fresh v =
      elim (Option-cases (claim_statement now m locked (expire_exhausted_jobs now m t))) [
        | inl e ↦ rw (e, claim_job) (expire-JobSteps now t i)
        | inr (row, e) ↦
            let vs = expire_exhausted_jobs-IsValid m now t v in
            let (mem, c, _) =
              claim_statement-mem m now locked (expire_exhausted_jobs now m t) row e in
            rw (e, claim_job)
              (JobSteps-trans (expire-JobSteps now t i) (
                write_row-JobSteps (lease_row w token expires_at) (expire_exhausted_jobs now m t)
                  row i (lease_row-KeepsKeys w token expires_at) vs.own_ids mem
                  (leases w token expires_at now c fresh)))
      ]

  fail_job-JobSteps :
      (j k now : ℕ) (w a : String) (retryable : Bool) (available_at : ℕ) (t : Table) (i : ℕ)
      → IsValid m t
      → JobSteps R m issued
          (job i t)
          (job i (fail_job m (is_active j k w now) a retryable available_at t).0)
  unfolding fail_job
  fail_job-JobSteps j k now w a retryable available_at t i v =
      elim (Option-cases (first_where (is_active j k w now) t)) [
        | inl e ↦ rw (e, fail_job) (JobSteps-same (job i t))
        | inr (row, e) ↦
            let (mem, active) = first_where-mem (is_active j k w now) t row e in
            rw (e, fail_job)
              (write_row-JobSteps (fail_row m a retryable available_at) t row i
                (fail_row-KeepsKeys m a retryable available_at) v.own_ids mem
                (fails j k now w a retryable available_at active))
      ]

  commit_job-JobSteps :
      (j r k now : ℕ) (w : String) (run : StoredRun R) (db : Database R) (i : ℕ)
      → IsValid m db.jobs
      → JobSteps R m issued (job i db.jobs) (job i (commit_job j r k run w now db).0.jobs)
  unfolding commit_job
  commit_job-JobSteps j r k now w run db i v =
      elim (Option-cases (first_where (may_commit j r k w now) db.jobs)) [
        | inl e ↦ rw (e, commit_job) (JobSteps-same (job i db.jobs))
        | inr (row, e) ↦
            let (mem, may) = first_where-mem (may_commit j r k w now) db.jobs row e in
            rw (e, commit_job)
              (write_row-JobSteps (finish_row run) db.jobs row i (finish_row-KeepsKeys run)
                v.own_ids mem (finishes j r k now w run may))
      ]

-- A transaction on a valid table moves every job along the state machine.
pub Step-JobSteps :
    {R : Type 0} (m : ℕ) {w u : World R} (i : ℕ)
    → Step m w u
    → IsValid m w.db.jobs
    → JobSteps R m w.issued (job i w.db.jobs) (job i u.db.jobs)
Step-JobSteps {R} m {w = w} i st v =
    step_cases m (λ t. JobSteps R m w.issued (job i w.db.jobs) (job i t)) (JobSteps-same _)
      (λ ex id run now c t' fresh e. insert_job-JobSteps ex id run now c _ t' i e)
      (λ worker e now token locked fresh. claim_job-JobSteps worker e now token locked _ i fresh v)
      (λ j k now worker e.
        update_where-JobSteps (is_active j k worker now) (extend_row e) _ i (extend_row-KeepsKeys e)
          (λ row a. extends j k now worker e a))
      (λ j k now worker.
        update_where-JobSteps (is_active j k worker now) close_row _ i close_row-KeepsKeys
          (λ row a. closes j k now worker a))
      (λ j k now worker a re at. fail_job-JobSteps j k now worker a re at _ i v)
      (λ j r k now worker run. commit_job-JobSteps j r k now worker run w.db i v) st
