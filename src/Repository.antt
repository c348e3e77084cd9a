-- ===== src/Repository.antt =====
-- `PostgresRunRepository` of src/voxbench/control_plane/run_api.py: `get`, and the two transactions
-- that share the table `run_jobs` with the queue. A run is kept whole: the child rows that
-- `_save_in_session` writes are its `rest`.
pub mod Outcomes
pub mod Finished
pub mod Commit
use voxbench.Base.{
  ℕ, String, Bool, true, false, ◌&&◌, Option, none, some, List, [], ◌∷◌, ◌==◌, if◌then◌else◌,
  column_eq, column_gtb, text_column_eq, first_where, not, ◌||◌,
}
use voxbench.JobQueue.Row.{
  RunJobState, is_leased, RunJob, Table, UuidText, RunJobLease, Result, ok, err, ◌>>=◌, ◌>>◌, guard,
  parse_uuid, run_id_invalid, queued_run_not_running, leased_run_result_not_terminal,
  repository_unavailable,
}
use voxbench.JobQueue.Statements.{write_row}
use voxbench.JobQueue.Operations.{has_run, new_job, insert_job}

pub data RunStatus : Type 0 where
  running completed failed : RunStatus

abbrev pub is_running : RunStatus → Bool
is_running RunStatus.running = true
is_running _ = false

abbrev pub is_completed : RunStatus → Bool
is_completed RunStatus.completed = true
is_completed _ = false

abbrev pub is_failed : RunStatus → Bool
is_failed RunStatus.failed = true
is_failed _ = false

abbrev pub is_none {ℓ} : {A : Type ℓ} → Option A → Bool
is_none none = true
is_none (some a) = false

pub record StoredRun (R : Type 0) : Type 0 where
  pub run_id : UuidText
  pub status : RunStatus
  pub started_at : ℕ
  pub ended_at : Option ℕ
  pub failure_alias : Option String
  pub rest : R

module _ {R : Type 0} where
  -- `session.get(RunRow, id)`
  unfoldable pub find_run : ℕ → List (ℕ × StoredRun R) → Option (StoredRun R)
  find_run i [] = none
  find_run i ((j, run) ∷ runs) = if j == i then some run else find_run i runs

  -- `_save_in_session`: the row is written anew, or added.
  unfoldable pub put_run : ℕ → StoredRun R → List (ℕ × StoredRun R) → List (ℕ × StoredRun R)
  put_run i run [] = (i, run) ∷ []
  put_run i run ((j, old) ∷ runs) =
      if j == i then (i, run) ∷ runs else (j, old) ∷ put_run i run runs

pub record Database (R : Type 0) : Type 0 where
  pub jobs : Table
  pub runs : List (ℕ × StoredRun R)

-- The condition under which a leased result may be written.
unfoldable pub may_commit : ℕ → ℕ → ℕ → String → ℕ → RunJob → Bool
may_commit job_id run_id token worker_id now row =
    row.id == job_id
    && row.run_id == run_id
    && is_leased row.state
    && text_column_eq row.lease_owner worker_id
    && column_eq row.lease_token token
    && column_gtb row.lease_expires_at now

module _ {R : Type 0} where
  -- The part of `save_queued_run` in the transaction. The SELECT reads `seen`; an INSERT that the
  -- unique constraint refuses rolls the transaction back.
  unfoldable pub save_queued_job :
      StoredRun R → ℕ → ℕ → ℕ → ℕ → Table → Database R → Result (Database R × UuidText)
  unfolding first_where has_run new_job insert_job put_run
  save_queued_job run run_id now new_id created_at seen db =
      elim (first_where (has_run run_id) seen) [
        | some existing ↦ ok (db, some existing.id)
        | none ↦ elim (insert_job true (new_job new_id run_id now created_at) db.jobs) [
          | some jobs' ↦
              ok (record { jobs = jobs'; runs = put_run run_id run db.runs }, some new_id)
          | none ↦ err repository_unavailable
        ]
      ]

  unfoldable pub save_queued_run :
      StoredRun R → ℕ → ℕ → ℕ → Table → Database R → Result (Database R × UuidText)
  unfolding save_queued_job parse_uuid
  save_queued_run run now new_id created_at seen db = do
    guard (is_running run.status && is_none run.ended_at) queued_run_not_running
    run_uuid ← parse_uuid run.run_id run_id_invalid
    save_queued_job run run_uuid now new_id created_at seen db

  unfoldable pub finish_row : StoredRun R → RunJob → RunJob
  finish_row run row = record row {
    state = if is_completed run.status then RunJobState.completed else RunJobState.failed;
    lease_owner = none;
    lease_token = none;
    lease_expires_at = none;
    failure_alias = if is_failed run.status then run.failure_alias else none;
  }

  -- The part of `commit_leased_result` in the transaction.
  unfoldable pub commit_job : ℕ → ℕ → ℕ → StoredRun R → String → ℕ → Database R → Database R × Bool
  unfolding may_commit first_where write_row finish_row put_run
  commit_job job_id run_id token run worker_id now db =
      elim (first_where (may_commit job_id run_id token worker_id now) db.jobs) [
        | none ↦ (db, false)
        | some row ↦ (
          record {
            jobs = write_row (finish_row run row) db.jobs;
            runs = put_run run_id run db.runs;
          },
          true,
        )
      ]

  -- The texts of the run and the lease: one that is no UUID, or another run, ends in False.
  unfoldable pub commit_texts :
      UuidText
      → UuidText
      → UuidText
      → UuidText
      → StoredRun R
      → String
      → ℕ
      → Database R
      → Database R × Bool
  unfolding commit_job
  commit_texts (some run_id) (some leased_run) (some job_id) (some token) run worker_id now db =
      if leased_run == run_id
      then commit_job job_id run_id token run worker_id now db
      else (db, false)
  commit_texts _ _ _ _ run worker_id now db = (db, false)

  unfoldable pub commit_leased_result :
      StoredRun R → RunJobLease → String → ℕ → Database R → Result (Database R × Bool)
  unfolding commit_texts
  commit_leased_result run lease worker_id now db = do
    guard ((is_completed run.status || is_failed run.status) && not (is_none run.ended_at))
        leased_run_result_not_terminal
    ok (commit_texts run.run_id lease.run_id lease.job_id lease.token run worker_id now db)

  -- `PostgresRunRepository.get`
  unfoldable pub get_run : UuidText → Database R → Option (StoredRun R)
  unfolding find_run
  get_run none db = none
  get_run (some run_id) db = find_run run_id db.runs
