-- ===== src/JobQueue/Replacing.antt =====
-- What an operation on a lease makes of the row of its job: for `heartbeat`, `complete` and `fail` of
-- src/voxbench/control_plane/job_queue.py.
use voxbench.Base.{
  ℕ, ◌<◌, ◌≤◌, none, ◌&&◌, if◌then◌else◌, ltb, ltb→lt, ltb-false, ◌≡◌, refl, ◌∙◌, String, Bool,
  true, false, some, map, inl, inr, ◌⊎◌, All, Bool-cases,
}
use voxbench.JobQueue.Row.{queued, failed, RunJob, Table}
use voxbench.JobQueue.Operations.{fail_row}
use voxbench.JobQueue.Rows.{ids, Distinct, job, at_id, KeepsKeys, map-at_id}

-- The job's row passes, and that row alone is changed.
pub record Accepted (i : ℕ) (p : RunJob → Bool) (change : RunJob → RunJob) (t t' : Table)
    : Type 0 where
  pub row : RunJob
  pub held : job i t ≡ some row
  pub passes : p row ≡ true
  pub after : job i t' ≡ some (change row)
  pub others : t' ≡ map (at_id i change) t

-- Either the answer is True and the job's row passed and is changed, or it is False, no row passes,
-- and nothing is changed.
abbrev pub Exact : ℕ → (RunJob → Bool) → (RunJob → RunJob) → Table → Table → Bool → Type 0
Exact i p change t t' reply =
    ((reply ≡ true) × Accepted i p change t t')
    ⊎ ((reply ≡ false) × (t' ≡ t) × All (λ row. p row ≡ false) t)

-- The job's row passes, and is replaced by one that is related to it; no other row changes.
pub record Replaced (i : ℕ) (p : RunJob → Bool) (Related : RunJob → RunJob → Type 0) (t t' : Table)
    : Type 0 where
  pub row : RunJob
  pub held : job i t ≡ some row
  pub passes : p row ≡ true
  pub after : RunJob
  pub found : job i t' ≡ some after
  pub related : Related row after
  pub others : t' ≡ map (at_id i (λ _. after)) t

-- Either the answer is True and the job's row is replaced, or it is False, no row passes, and nothing
-- is changed.
abbrev pub Replacement :
    ℕ → (RunJob → Bool) → (RunJob → RunJob → Type 0) → Table → Table → Bool → Type 0
Replacement i p Related t t' reply =
    ((reply ≡ true) × Replaced i p Related t t')
    ⊎ ((reply ≡ false) × (t' ≡ t) × All (λ row. p row ≡ false) t)

pub Accepted-Replaced :
    {i : ℕ} {p : RunJob → Bool} {t t' : Table} (change : RunJob → RunJob)
    (Related : RunJob → RunJob → Type 0)
    → KeepsKeys change
    → Distinct (ids t)
    → ((row : RunJob) → Related row (change row))
    → Accepted i p change t t'
    → Replaced i p Related t t'
Accepted-Replaced {i} {p} {t} change Related k d rel a = record {
  row = a.row;
  held = a.held;
  passes = a.passes;
  after = change a.row;
  found = a.after;
  related = rel a.row;
  others = a.others ∙ map-at_id change i t a.row k d a.held;
}

-- What a failed attempt makes of a row: it is queued again if it may be retried and has attempts
-- left, and is failed otherwise.
pub record FailedAttempt (max_attempts : ℕ) (alias : String) (retryable : Bool) (available_at : ℕ)
    (row after : RunJob) : Type 0 where
  pub decided :
      ((retryable ≡ true) × (row.attempts < max_attempts) × (after.state ≡ queued))
      ⊎ (((retryable ≡ false) ⊎ (max_attempts ≤ row.attempts)) × (after.state ≡ failed))
  pub due : after.available_at ≡ available_at
  pub no_owner : after.lease_owner ≡ none
  pub no_token : after.lease_token ≡ none
  pub no_expiry : after.lease_expires_at ≡ none
  pub named : after.failure_alias ≡ some alias
  pub same_id : after.id ≡ row.id
  pub same_run : after.run_id ≡ row.run_id
  pub same_attempts : after.attempts ≡ row.attempts
  pub same_creation : after.created_at ≡ row.created_at

pub fail_row-FailedAttempt :
    (m : ℕ) (alias : String) (retryable : Bool) (at : ℕ) (row : RunJob)
    → FailedAttempt m alias retryable at row (fail_row m alias retryable at row)
unfolding fail_row
fail_row-FailedAttempt m alias retryable at row = record {
  decided = decision retryable;
  due = refl;
  no_owner = refl;
  no_token = refl;
  no_expiry = refl;
  named = refl;
  same_id = refl;
  same_run = refl;
  same_attempts = refl;
  same_creation = refl;
}
  where
    decision :
        (re : Bool)
        → ((re ≡ true)
            × (row.attempts < m)
            × ((if re && ltb row.attempts m then queued else failed) ≡ queued))
          ⊎ (((re ≡ false) ⊎ (m ≤ row.attempts))
              × ((if re && ltb row.attempts m then queued else failed) ≡ failed))
    decision false = inr (inl refl, refl)
    decision true = elim (Bool-cases (ltb row.attempts m)) [
      | inl e ↦ inl (refl, ltb→lt row.attempts m e, rw e refl)
      | inr e ↦ inr (inr (ltb-false row.attempts m e), rw e refl)
    ]
