-- ===== src/JobQueue/Statements.antt =====
-- The SQL statements of src/voxbench/control_plane/job_queue.py, as functions on the table.
use voxbench.Base.{
  ℕ, Bool, true, false, ◌&&◌, ◌||◌, Option, none, some, map, ltb, leb, ◌==◌, if◌then◌else◌,
  column_leb, count_if, earliest,
}
use voxbench.JobQueue.Row.{RunJob, Table, is_queued, is_leased, failed}

-- UPDATE … WHERE: the changed table, and the row count.
unfoldable pub update_where : (RunJob → Bool) → (RunJob → RunJob) → Table → Table × ℕ
update_where p change t = (map (λ row. if p row then change row else row) t, count_if p t)

-- What flushing a changed row writes: UPDATE … WHERE id = row.id.
unfoldable pub write_row : RunJob → Table → Table
write_row new = map (λ row. if row.id == new.id then new else row)

-- The condition of `_expire_exhausted_jobs_statement`.
unfoldable pub is_exhausted : ℕ → ℕ → RunJob → Bool
is_exhausted now max_attempts row =
    leb max_attempts row.attempts
    && (is_queued row.state || (is_leased row.state && column_leb row.lease_expires_at now))

unfoldable pub expire : RunJob → RunJob
expire row = record row {
  state = failed;
  lease_owner = none;
  lease_token = none;
  lease_expires_at = none;
  failure_alias = some "attempt-limit-exhausted";
}

unfoldable pub expire_exhausted_jobs : ℕ → ℕ → Table → Table
unfolding update_where is_exhausted expire
expire_exhausted_jobs now max_attempts t = (update_where (is_exhausted now max_attempts) expire t).0

-- The condition of `_claim_statement`.
unfoldable pub is_claimable : ℕ → ℕ → RunJob → Bool
is_claimable now max_attempts row =
    ltb row.attempts max_attempts
    && ((is_queued row.state && leb row.available_at now)
        || (is_leased row.state && column_leb row.lease_expires_at now))

-- ORDER BY available_at, created_at, id
unfoldable pub comes_before : RunJob → RunJob → Bool
comes_before a b =
    ltb a.available_at b.available_at
    || (a.available_at == b.available_at
        && (ltb a.created_at b.created_at || (a.created_at == b.created_at && ltb a.id b.id)))

-- FOR UPDATE SKIP LOCKED: rows that another transaction has locked are passed over.
unfoldable pub claim_statement : ℕ → ℕ → (ℕ → Bool) → Table → Option RunJob
unfolding is_claimable comes_before earliest
claim_statement now max_attempts locked =
    earliest comes_before
      (λ row. is_claimable now max_attempts row && (if locked row.id then false else true))
