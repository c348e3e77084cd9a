-- ===== src/Leases/Steps.antt =====
-- Transactions on the shared database as a step relation, in any order and by any workers.
use voxbench.Base.{
  ℕ, ◌+◌, ◌≡◌, sym, ap, subst, inl, inr, some, none, true, String, Bool, Option, List, ◌∷◌,
}
use voxbench.JobQueue.Row.{Table, UuidText, RunJobLease, ok, seconds}
use voxbench.JobQueue.Operations.{
  enqueue, claim, heartbeat, complete, fail, insert_job, new_job, claim_job, is_active, extend_row,
  close_row, fail_job,
}
use voxbench.JobQueue.Outcomes.{update_one, claim-ok, heartbeat-ok, complete-ok, fail-ok}
use voxbench.JobQueue.Kept.{enqueue-cases}
use voxbench.JobQueue.Rows.{Absent, ids}
use voxbench.Repository.{StoredRun, Database, save_queued_run, commit_leased_result, commit_job}
use voxbench.Repository.Outcomes.{save_queued_run-cases, commit_leased_result-cases}

-- The database, and the lease tokens that were drawn so far. `uuid4` never draws one twice.
pub record World (R : Type 0) : Type 0 where
  pub db : Database R
  pub issued : List ℕ

abbrev pub with_jobs : {R : Type 0} → World R → Table → World R
with_jobs w t = record w { db = record (w.db) { jobs = t } }

abbrev pub with_db : {R : Type 0} → World R → Database R → World R
with_db w db = record w { db = db }

-- One transaction that returns. One that raises is rolled back, and is no step.
pub data Step {R : Type 0} (max_attempts : ℕ) (w : World R) : World R → Type 0 where
  enqueues :
      (run_id : UuidText) (now new_id created_at : ℕ) (run_exists : Bool) (seen t' : Table)
      (reply : UuidText)
      → Absent new_id (ids w.db.jobs)
      → enqueue run_id now new_id created_at run_exists seen w.db.jobs ≡ ok (t', reply)
      → Step max_attempts w (with_jobs w t')
  claims :
      (worker : String) (lease_seconds now token : ℕ) (locked : ℕ → Bool) (t' : Table)
      (lease : Option RunJobLease)
      → Absent token w.issued
      → claim max_attempts worker lease_seconds now token locked w.db.jobs ≡ ok (t', lease)
      → Step max_attempts w (record (with_jobs w t') { issued = token ∷ w.issued })
  beats :
      (lease : RunJobLease) (worker : String) (lease_seconds now : ℕ) (t' : Table) (reply : Bool)
      → heartbeat lease worker lease_seconds now w.db.jobs ≡ ok (t', reply)
      → Step max_attempts w (with_jobs w t')
  completes :
      (lease : RunJobLease) (worker : String) (now : ℕ) (t' : Table) (reply : Bool)
      → complete lease worker now w.db.jobs ≡ ok (t', reply)
      → Step max_attempts w (with_jobs w t')
  fails :
      (lease : RunJobLease) (worker alias : String) (retryable : Bool) (delay now : ℕ) (t' : Table)
      (reply : Bool)
      → fail max_attempts lease worker alias retryable delay now w.db.jobs ≡ ok (t', reply)
      → Step max_attempts w (with_jobs w t')
  saves :
      (run : StoredRun R) (now new_id created_at : ℕ) (seen : Table) (db' : Database R)
      (reply : UuidText)
      → Absent new_id (ids w.db.jobs)
      → save_queued_run run now new_id created_at seen w.db ≡ ok (db', reply)
      → Step max_attempts w (with_db w db')
  commits :
      (run : StoredRun R) (lease : RunJobLease) (worker : String) (now : ℕ) (db' : Database R)
      (reply : Bool)
      → commit_leased_result run lease worker now w.db ≡ ok (db', reply)
      → Step max_attempts w (with_db w db')

pub data Reach {R : Type 0} (max_attempts : ℕ) (w : World R) : World R → Type 0 where
  here : Reach max_attempts w w
  next : {u v : World R} → Reach max_attempts w u → Step max_attempts u v → Reach max_attempts w v

-- What holds of the jobs after each transaction, whatever its arguments, holds after a step.
module _ {R : Type 0} (m : ℕ) {w : World R} (P : Table → Type 0) (same : P w.db.jobs)
    (inserted : (run_exists : Bool) (id run now created_at : ℕ) (t' : Table)
      → Absent id (ids w.db.jobs)
      → insert_job run_exists (new_job id run now created_at) w.db.jobs ≡ some t'
      → P t')
    (claimed : (worker : String) (expires_at now token : ℕ) (locked : ℕ → Bool)
      → Absent token w.issued
      → P (claim_job m worker expires_at now token locked w.db.jobs).0)
    (extended : (j k now : ℕ) (worker : String) (expires_at : ℕ)
      → P (update_one (is_active j k worker now) (extend_row expires_at) w.db.jobs).0)
    (closed : (j k now : ℕ) (worker : String)
      → P (update_one (is_active j k worker now) close_row w.db.jobs).0)
    (failed : (j k now : ℕ) (worker alias : String) (retryable : Bool) (available_at : ℕ)
      → P (fail_job m (is_active j k worker now) alias retryable available_at w.db.jobs).0)
    (finished : (j r k now : ℕ) (worker : String) (run : StoredRun R)
      → P (commit_job j r k run worker now w.db).0.jobs) where
  pub step_cases : {u : World R} → Step m w u → P u.db.jobs
  step_cases (enqueues none now id c ex seen t' r fresh h) = unfold enqueue in absurd (cc)
  step_cases (enqueues (some run) now id c ex seen t' r fresh h) =
      elim (enqueue-cases m run now id c ex seen w.db.jobs h) [
        | inl e ↦ subst P e same
        | inr e ↦ inserted ex id run now c t' fresh e
      ]
  step_cases (claims worker s now token locked t' lease fresh h) =
      subst P (ap (λ p. p.0) (claim-ok m worker s now token locked w.db.jobs h))
        (claimed worker (now + seconds s) now token locked fresh)
  step_cases (beats lease worker s now t' r h) =
      let (j, k, _, e) = heartbeat-ok lease worker s now w.db.jobs h in
      subst P (ap (λ p. p.0) e) (extended j k now worker (now + seconds s))
  step_cases (completes lease worker now t' r h) =
      let (j, k, _, e) = complete-ok lease worker now w.db.jobs h in
      subst P (ap (λ p. p.0) e) (closed j k now worker)
  step_cases (fails lease worker a re delay now t' r h) =
      let (j, k, _, e) = fail-ok m lease worker a re delay now w.db.jobs h in
      subst P (ap (λ p. p.0) e) (failed j k now worker a re (now + seconds delay))
  step_cases (saves run now id c seen db' r fresh h) =
      elim (save_queued_run-cases run now id c seen w.db h) [
        | inl e ↦ subst P e same
        | inr (run_id, e) ↦ inserted true id run_id now c db'.jobs fresh e
      ]
  step_cases (commits run lease worker now db' r h) =
      elim (commit_leased_result-cases run lease worker now w.db h) [
        | inl e ↦ subst P (ap (λ p. p.0.jobs) (sym e)) same
        | inr (r, j, k, _, e) ↦ subst P (ap (λ p. p.0.jobs) (sym e)) (finished j r k now worker run)
      ]
