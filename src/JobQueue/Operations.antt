-- ===== src/JobQueue/Operations.antt =====
-- The operations of `PostgresRunJobQueue` in src/voxbench/control_plane/job_queue.py. What the code
-- draws from outside is an argument: the time, a new UUID, the rows that other transactions lock.
use voxbench.Base.{
  ℕ, ◌+◌, String, Bool, true, false, ◌&&◌, Option, none, some, [], ◌∷◌, ◌++◌, ltb, leb, ◌==◌,
  if◌then◌else◌, column_eq, column_gtb, text_column_eq, first_where,
}
use voxbench.JobQueue.Row.{
  queued, leased, completed, failed, is_leased, RunJob, Table, UuidText, RunJobLease, RunJobStatus,
  Result, ok, err, ◌>>=◌, ◌>>◌, guard, seconds, parse_uuid, validate_alias, validate_lease_seconds,
  max_retry_delay_seconds, run_id_invalid, worker_id_invalid, failure_alias_invalid,
  retry_delay_invalid, job_id_invalid, lease_token_invalid, queue_unavailable,
}
use voxbench.JobQueue.Statements.{update_where, write_row, expire_exhausted_jobs, claim_statement}

unfoldable pub has_run : ℕ → RunJob → Bool
has_run run_id row = row.run_id == run_id

unfoldable pub new_job : ℕ → ℕ → ℕ → ℕ → RunJob
new_job id run_id available_at created_at = record {
  id = id;
  run_id = run_id;
  state = queued;
  available_at = available_at;
  lease_owner = none;
  lease_token = none;
  lease_expires_at = none;
  attempts = 0;
  failure_alias = none;
  created_at = created_at;
}

-- INSERT: refused by the unique constraint on `run_id`, and by the foreign key to `runs`.
unfoldable pub insert_job : Bool → RunJob → Table → Option Table
unfolding first_where has_run
insert_job run_exists job t = elim (first_where (has_run job.run_id) t) [
  | some other ↦ none
  | none ↦ if run_exists then some (t ++ job ∷ []) else none
]

-- `enqueue`. The first SELECT reads `seen`; the INSERT and what follows it meet `t`, to which other
-- transactions may have added a job meanwhile. `run_exists`: the table `runs` has the run.
unfoldable pub enqueue : UuidText → ℕ → ℕ → ℕ → Bool → Table → Table → Result (Table × UuidText)
unfolding first_where has_run new_job insert_job parse_uuid
enqueue run_id now new_id created_at run_exists seen t = do
  run_uuid ← parse_uuid run_id run_id_invalid
  elim (first_where (has_run run_uuid) seen) [
    | some existing ↦ ok (t, some existing.id)
    | none ↦ elim (insert_job run_exists (new_job new_id run_uuid now created_at) t) [
      | some t' ↦ ok (t', some new_id)
      | none ↦ elim (first_where (has_run run_uuid) t) [
        | some existing ↦ ok (t, some existing.id)
        | none ↦ err queue_unavailable
      ]
    ]
  ]

unfoldable pub lease_row : String → ℕ → ℕ → RunJob → RunJob
lease_row worker_id token expires_at row = record row {
  state = leased;
  lease_owner = some worker_id;
  lease_token = some token;
  lease_expires_at = some expires_at;
  attempts = row.attempts + 1;
  failure_alias = none;
}

unfoldable pub lease_of : ℕ → ℕ → ℕ → RunJob → RunJobLease
lease_of max_attempts token expires_at row = record {
  job_id = some row.id;
  run_id = some row.run_id;
  token = some token;
  attempt = row.attempts;
  expires_at = expires_at;
  final_attempt = leb max_attempts row.attempts;
}

-- What `claim` does with the row that was selected.
unfoldable pub grant : ℕ → String → ℕ → ℕ → Table → Option RunJob → Table × Option RunJobLease
unfolding write_row lease_row lease_of
grant max_attempts worker_id expires_at new_token t none = (t, none)
grant max_attempts worker_id expires_at new_token t (some row) =
    let row' = lease_row worker_id new_token expires_at row in
    (write_row row' t, some (lease_of max_attempts new_token expires_at row'))

-- The part of `claim` in the transaction.
unfoldable pub claim_job : ℕ → String → ℕ → ℕ → ℕ → (ℕ → Bool) → Table → Table × Option RunJobLease
unfolding grant expire_exhausted_jobs claim_statement
claim_job max_attempts worker_id expires_at now new_token locked t =
    let swept = expire_exhausted_jobs now max_attempts t in
    grant max_attempts worker_id expires_at new_token swept
      (claim_statement now max_attempts locked swept)

unfoldable pub claim :
    ℕ → String → ℕ → ℕ → ℕ → (ℕ → Bool) → Table → Result (Table × Option RunJobLease)
unfolding claim_job validate_alias validate_lease_seconds
claim max_attempts worker_id lease_seconds now new_token locked t = do
  validate_alias worker_id worker_id_invalid
  validate_lease_seconds lease_seconds
  ok (claim_job max_attempts worker_id (now + seconds lease_seconds) now new_token locked t)

-- `_active_lease_conditions`, once its UUIDs are parsed.
unfoldable pub is_active : ℕ → ℕ → String → ℕ → RunJob → Bool
is_active job_id token worker_id now row =
    row.id == job_id
    && is_leased row.state
    && text_column_eq row.lease_owner worker_id
    && column_eq row.lease_token token
    && column_gtb row.lease_expires_at now

unfoldable pub active_lease_conditions : RunJobLease → String → ℕ → Result (RunJob → Bool)
unfolding is_active parse_uuid
active_lease_conditions lease worker_id now = do
  job_id ← parse_uuid lease.job_id job_id_invalid
  token ← parse_uuid lease.token lease_token_invalid
  ok (is_active job_id token worker_id now)

unfoldable pub extend_row : ℕ → RunJob → RunJob
extend_row expires_at row = record row { lease_expires_at = some expires_at }

unfoldable pub heartbeat : RunJobLease → String → ℕ → ℕ → Table → Result (Table × Bool)
unfolding update_where active_lease_conditions extend_row validate_alias validate_lease_seconds
heartbeat lease worker_id lease_seconds now t = do
  validate_alias worker_id worker_id_invalid
  validate_lease_seconds lease_seconds
  active ← active_lease_conditions lease worker_id now
  let (t', rowcount) = update_where active (extend_row (now + seconds lease_seconds)) t
  ok (t', rowcount == 1)

unfoldable pub close_row : RunJob → RunJob
close_row row = record row {
  state = completed;
  lease_owner = none;
  lease_token = none;
  lease_expires_at = none;
  failure_alias = none;
}

unfoldable pub complete : RunJobLease → String → ℕ → Table → Result (Table × Bool)
unfolding update_where active_lease_conditions close_row validate_alias
complete lease worker_id now t = do
  validate_alias worker_id worker_id_invalid
  active ← active_lease_conditions lease worker_id now
  let (t', rowcount) = update_where active close_row t
  ok (t', rowcount == 1)

unfoldable pub fail_row : ℕ → String → Bool → ℕ → RunJob → RunJob
fail_row max_attempts failure_alias retryable available_at row = record row {
  state = if retryable && ltb row.attempts max_attempts then queued else failed;
  available_at = available_at;
  lease_owner = none;
  lease_token = none;
  lease_expires_at = none;
  failure_alias = some failure_alias;
}

-- The part of `fail` in the transaction.
unfoldable pub fail_job : ℕ → (RunJob → Bool) → String → Bool → ℕ → Table → Table × Bool
unfolding first_where write_row fail_row
fail_job max_attempts active failure_alias retryable available_at t = elim (first_where active t) [
  | none ↦ (t, false)
  | some row ↦ (write_row (fail_row max_attempts failure_alias retryable available_at row) t, true)
]

unfoldable pub fail :
    ℕ → RunJobLease → String → String → Bool → ℕ → ℕ → Table → Result (Table × Bool)
unfolding fail_job active_lease_conditions validate_alias
fail max_attempts lease worker_id failure_alias retryable retry_delay_seconds now t = do
  validate_alias worker_id worker_id_invalid
  validate_alias failure_alias failure_alias_invalid
  guard (leb retry_delay_seconds max_retry_delay_seconds) retry_delay_invalid
  active ← active_lease_conditions lease worker_id now
  ok (fail_job max_attempts active failure_alias retryable (now + seconds retry_delay_seconds) t)

unfoldable pub to_status : RunJob → RunJobStatus
to_status row = record {
  job_id = some row.id;
  run_id = some row.run_id;
  state = row.state;
  attempts = row.attempts;
  available_at = row.available_at;
  lease_owner = row.lease_owner;
  lease_expires_at = row.lease_expires_at;
  failure_alias = row.failure_alias;
}

unfoldable pub get : UuidText → Table → Result (Option RunJobStatus)
unfolding first_where to_status parse_uuid
get job_id t = do
  job_uuid ← parse_uuid job_id job_id_invalid
  ok (elim (first_where (λ row. row.id == job_uuid) t) [
    | none ↦ none
    | some row ↦ some (to_status row)
  ])
