-- ===== src/RunWorker.antt =====
-- The execution of one leased job: `RunJobWorker` of src/voxbench/control_plane/run_worker.py over
-- the shared database.
pub mod Total
pub mod Outcome
pub mod RunOne
use voxbench.Base.{ℕ, ◌*◌, String, Bool, true, false, ◌&&◌, Option, none, some, leb, if◌then◌else◌}
use voxbench.Alias.{is_safe_alias}
use voxbench.JobQueue.Row.{
  UuidText, RunJobLease, Table, Error, Result, ok, err, ◌>>=◌, ◌>>◌, guard, worker_id_invalid,
  lease_seconds_invalid, heartbeat_interval_invalid, retry_delay_invalid,
}
use voxbench.JobQueue.Operations.{claim, fail}
use voxbench.Repository.{
  RunStatus, is_completed, is_failed, is_none, StoredRun, Database, get_run, commit_leased_result,
}

pub data RunWorkerOutcome : Type 0 where
  idle completed retry_scheduled failed run_missing lease_lost : RunWorkerOutcome

pub record RunWorkerResult : Type 0 where
  pub outcome : RunWorkerOutcome
  pub job_id : Option UuidText
  pub run_id : Option UuidText
  pub attempt : Option ℕ

pub record RunJobWorker : Type 0 where
  pub worker_id : String
  pub lease_seconds : ℕ
  pub heartbeat_interval_ms : ℕ
  pub retry_delay_seconds : ℕ

-- `RunJobWorker.__post_init__`; the heartbeat interval is in milliseconds.
unfoldable pub new_worker : RunJobWorker → Result RunJobWorker
new_worker w = do
  guard (is_safe_alias w.worker_id) worker_id_invalid
  guard (leb 5 w.lease_seconds && leb w.lease_seconds 300) lease_seconds_invalid
  guard
      (leb 1_000 w.heartbeat_interval_ms
        && leb (2 * w.heartbeat_interval_ms) (1_000 * w.lease_seconds))
      heartbeat_interval_invalid
  guard (leb w.retry_delay_seconds 3_600) retry_delay_invalid
  ok w

-- What one execution meets: clocks, the new token, the rows that others lock, what `execute` makes
-- of the run and whether it raised, whether the heartbeats kept the lease, and the database as other
-- transactions have left it before the run is read and before the result is written.
pub record Circumstances (R : Type 0) : Type 0 where
  pub claimed_at : ℕ
  pub new_token : ℕ
  pub locked : ℕ → Bool
  pub before_get : Database R → Database R
  pub execute : StoredRun R → StoredRun R × Bool
  pub lease_active : Bool
  pub before_write : Database R → Database R
  pub written_at : ℕ
  pub ended_at : ℕ

abbrev pub result_of : RunJobLease → RunWorkerOutcome → RunWorkerResult
result_of lease outcome = record {
  outcome = outcome;
  job_id = some lease.job_id;
  run_id = some lease.run_id;
  attempt = some lease.attempt;
}

-- The alias under which a run that did not complete is recorded.
unfoldable pub failure_of : {R : Type 0} → StoredRun R → String
failure_of run = elim run.failure_alias [
  | none ↦ "run-result-invalid"
  | some alias ↦ if is_failed run.status && is_safe_alias alias then alias else "run-result-invalid"
]

module _ {R : Type 0} (max_attempts : ℕ) (w : RunJobWorker) (c : Circumstances R) where
  unfoldable pub failed_run : StoredRun R → String → StoredRun R
  failed_run run alias = record run {
    status = RunStatus.failed;
    failure_alias = some alias;
    ended_at = some c.ended_at;
  }

  -- `_record_failure`
  unfoldable pub record_failure :
      StoredRun R → RunJobLease → String → Database R → Result (Database R × RunWorkerResult)
  unfolding failed_run
  record_failure run lease alias db =
      if lease.final_attempt
      then (do
        (db', committed) ←
            commit_leased_result (failed_run run alias) lease w.worker_id c.written_at db
        ok (db', result_of lease (if committed then failed else lease_lost)))
      else (do
        (jobs', scheduled) ←
            fail max_attempts lease w.worker_id alias true w.retry_delay_seconds c.written_at
              db.jobs
        ok (
          record db { jobs = jobs' },
          result_of lease (if scheduled then retry_scheduled else lease_lost),
        ))

  -- What follows the execution, with the lease still held.
  unfoldable pub record_result :
      StoredRun R → Bool → RunJobLease → Database R → Result (Database R × RunWorkerResult)
  unfolding record_failure failure_of
  record_result run true lease db = record_failure run lease "engine-harness-error" db
  record_result run false lease db =
      if is_completed run.status && (if is_none run.ended_at then false else true)
      then (do
        (db', committed) ← commit_leased_result run lease w.worker_id c.written_at db
        ok (db', result_of lease (if committed then completed else lease_lost)))
      else record_failure run lease (failure_of run) db

  unfoldable pub missing_run : RunJobLease → Database R → Result (Database R × RunWorkerResult)
  missing_run lease db = do
    (jobs', done) ← fail max_attempts lease w.worker_id "run-not-found" false 0 c.written_at db.jobs
    ok (record db { jobs = jobs' }, result_of lease (if done then run_missing else lease_lost))

  -- The run that was read is executed under heartbeats.
  unfoldable pub run_leased :
      Option (StoredRun R) → RunJobLease → Database R → Result (Database R × RunWorkerResult)
  unfolding record_result missing_run
  run_leased none lease db = missing_run lease (c.before_write db)
  run_leased (some run) lease db =
      let (run', raised) = c.execute run in
      let db' = c.before_write db in
      if c.lease_active
      then record_result run' raised lease db'
      else ok (db', result_of lease lease_lost)

  unfoldable pub run_claimed :
      Option RunJobLease → Database R → Result (Database R × RunWorkerResult)
  unfolding run_leased
  run_claimed none db =
      ok (db, record { outcome = idle; job_id = none; run_id = none; attempt = none })
  run_claimed (some lease) db =
      let db' = c.before_get db in run_leased (get_run lease.run_id db') lease db'

  unfoldable pub run_one : Database R → Result (Database R × RunWorkerResult)
  unfolding run_claimed
  run_one db = do
    (jobs', lease) ←
        claim max_attempts w.worker_id w.lease_seconds c.claimed_at c.new_token c.locked db.jobs
    run_claimed lease (record db { jobs = jobs' })
