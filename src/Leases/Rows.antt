-- ===== src/Leases/Rows.antt =====
-- What one transaction may do to the row of one job: the state machine of a job.
use voxbench.Base.{
  ℕ, ◌≡◌, refl, sym, ap, subst, ◌∙◌, String, Bool, true, Option, none, some, List, map, ◌==◌,
  ==_iff, if◌then◌else◌, Memᴰ, inl, inr, Bool-cases, some_inj,
}
use mathlib.Core.Option
use voxbench.JobQueue.Row.{RunJob, Table, queued}
use voxbench.JobQueue.Statements.{update_where, write_row, is_exhausted, expire, is_claimable}
use voxbench.JobQueue.Operations.{lease_row, is_active, extend_row, close_row, fail_row}
use voxbench.JobQueue.Rows.{
  Absent, Distinct, ids, job, at_id, KeepsKeys, KeepsKeys-if, job-map, write_row-eq, job-mem,
  job-eq_id,
}
use voxbench.Repository.{StoredRun, may_commit, finish_row}

-- The moves of a row. `issued` holds the lease tokens that were drawn before.
pub data RowStep (R : Type 0) (max_attempts : ℕ) (issued : List ℕ) (row : RunJob)
    : RunJob → Type 0 where
  exhausts :
      (now : ℕ)
      → is_exhausted now max_attempts row ≡ true
      → RowStep R max_attempts issued row (expire row)
  leases :
      (worker : String) (token expires_at now : ℕ)
      → is_claimable now max_attempts row ≡ true
      → Absent token issued
      → RowStep R max_attempts issued row (lease_row worker token expires_at row)
  extends :
      (job_id token now : ℕ) (worker : String) (expires_at : ℕ)
      → is_active job_id token worker now row ≡ true
      → RowStep R max_attempts issued row (extend_row expires_at row)
  closes :
      (job_id token now : ℕ) (worker : String)
      → is_active job_id token worker now row ≡ true
      → RowStep R max_attempts issued row (close_row row)
  fails :
      (job_id token now : ℕ) (worker alias : String) (retryable : Bool) (available_at : ℕ)
      → is_active job_id token worker now row ≡ true
      → RowStep R max_attempts issued row (fail_row max_attempts alias retryable available_at row)
  finishes :
      (job_id run_id token now : ℕ) (worker : String) (run : StoredRun R)
      → may_commit job_id run_id token worker now row ≡ true
      → RowStep R max_attempts issued row (finish_row run row)

pub data RowSteps (R : Type 0) (max_attempts : ℕ) (issued : List ℕ) (row : RunJob)
    : RunJob → Type 0 where
  stays : RowSteps R max_attempts issued row row
  then_ :
      {r s : RunJob}
      → RowSteps R max_attempts issued row r
      → RowStep R max_attempts issued r s
      → RowSteps R max_attempts issued row s

-- What a transaction does to one job of the table: the row moves, is missing, or is added.
pub data JobSteps (R : Type 0) (max_attempts : ℕ) (issued : List ℕ)
    : Option RunJob → Option RunJob → Type 0 where
  moves :
      {r s : RunJob}
      → RowSteps R max_attempts issued r s
      → JobSteps R max_attempts issued (some r) (some s)
  missing : JobSteps R max_attempts issued none none
  added :
      {s t : RunJob}
      → s.state ≡ queued
      → s.lease_token ≡ none
      → s.attempts ≡ 0
      → RowSteps R max_attempts issued s t
      → JobSteps R max_attempts issued none (some t)

module _ {R : Type 0} {m : ℕ} {issued : List ℕ} where
  pub JobSteps-same : (o : Option RunJob) → JobSteps R m issued o o
  JobSteps-same none = missing
  JobSteps-same (some r) = moves stays

  -- Where every row moves by itself, so does every job.
  pub map-JobSteps :
      (f : RunJob → RunJob) (t : Table) (i : ℕ)
      → KeepsKeys f
      → ((r : RunJob) → RowSteps R m issued r (f r))
      → JobSteps R m issued (job i t) (job i (map f t))
  map-JobSteps f t i k one =
      subst (JobSteps R m issued (job i t)) (sym (job-map i f t k)) (go (job i t))
    where
      go : (o : Option RunJob) → JobSteps R m issued o (Option.map f o)
      go none = missing
      go (some r) = moves (one r)

  pub update_where-JobSteps :
      (p : RunJob → Bool) (change : RunJob → RunJob) (t : Table) (i : ℕ)
      → KeepsKeys change
      → ((r : RunJob) → p r ≡ true → RowStep R m issued r (change r))
      → JobSteps R m issued (job i t) (job i (update_where p change t).0)
  unfolding update_where
  update_where-JobSteps p change t i k one =
      map-JobSteps (λ r. if p r then change r else r) t i (KeepsKeys-if p change k) go
    where
      go : (r : RunJob) → RowSteps R m issued r (if p r then change r else r)
      go r = elim (Bool-cases (p r)) [ inl e ↦ rw e (then_ stays (one r e)) | inr e ↦ rw e stays ]

  -- Writing one changed row moves its job, and no other.
  pub write_row-JobSteps :
      (change : RunJob → RunJob) (t : Table) (row : RunJob) (i : ℕ)
      → KeepsKeys change
      → Distinct (ids t)
      → Memᴰ row t
      → RowStep R m issued row (change row)
      → JobSteps R m issued (job i t) (job i (write_row (change row) t))
  write_row-JobSteps change t row i k d mem one =
      subst (λ u. JobSteps R m issued (job i t) (job i u)) (sym (write_row-eq change t row k d mem))
        (subst (JobSteps R m issued (job i t))
          (sym (job-map i (at_id row.id change) t (KeepsKeys-if (λ r. r.id == row.id) change k)))
          (go (job i t) refl))
    where
      found : (r : RunJob) → job i t ≡ some r → r.id ≡ row.id → row ≡ r
      found r e q =
          some_inj row r
            (sym (job-mem t row d mem) ∙ ap (λ n. job n t) (sym q ∙ job-eq_id i t r e) ∙ e)

      go :
          (o : Option RunJob)
          → job i t ≡ o
          → JobSteps R m issued o (Option.map (at_id row.id change) o)
      go none e = missing
      go (some r) e = elim (Bool-cases (r.id == row.id)) [
        | inl on ↦
            let same : row ≡ r = found r e ((==_iff r.id row.id).0 on) in
            moves (rw on (then_ stays (subst (λ x. RowStep R m issued x (change x)) same one)))
        | inr off ↦ moves (rw off stays)
      ]
