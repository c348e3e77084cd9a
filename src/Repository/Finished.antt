-- ===== src/Repository/Finished.antt =====
-- What the end of a run makes of the row of its job: for `commit_leased_result` of
-- src/voxbench/control_plane/run_api.py.
use voxbench.Base.{none, ◌≡◌, ◌⊎◌, refl, true, inl, inr, ◌||◌, if◌then◌else◌}
use voxbench.JobQueue.Row.{RunJobState, RunJob}
use voxbench.Repository.{is_completed, is_failed, RunStatus, StoredRun, finish_row}

module _ {R : Type 0} where
  -- What the end of a run makes of the row of its job.
  pub record Finished (run : StoredRun R) (row after : RunJob) : Type 0 where
    pub ended :
        ((run.status ≡ RunStatus.completed)
          × (after.state ≡ RunJobState.completed)
          × (after.failure_alias ≡ none))
        ⊎ ((run.status ≡ RunStatus.failed)
            × (after.state ≡ RunJobState.failed)
            × (after.failure_alias ≡ run.failure_alias))
    pub no_owner : after.lease_owner ≡ none
    pub no_token : after.lease_token ≡ none
    pub no_expiry : after.lease_expires_at ≡ none
    pub same_id : after.id ≡ row.id
    pub same_run : after.run_id ≡ row.run_id
    pub same_attempts : after.attempts ≡ row.attempts
    pub same_due : after.available_at ≡ row.available_at
    pub same_creation : after.created_at ≡ row.created_at

  pub finish_row-Finished :
      (run : StoredRun R) (row : RunJob)
      → (is_completed run.status || is_failed run.status) ≡ true
      → Finished run row (finish_row run row)
  unfolding finish_row
  finish_row-Finished run row h = record {
    ended = endings run.status h;
    no_owner = refl;
    no_token = refl;
    no_expiry = refl;
    same_id = refl;
    same_run = refl;
    same_attempts = refl;
    same_due = refl;
    same_creation = refl;
  }
    where
      endings :
          (s : RunStatus)
          → (is_completed s || is_failed s) ≡ true
          → ((s ≡ RunStatus.completed)
              × ((if is_completed s then RunJobState.completed else RunJobState.failed)
                  ≡ RunJobState.completed)
              × ((if is_failed s then run.failure_alias else none) ≡ none))
            ⊎ ((s ≡ RunStatus.failed)
                × ((if is_completed s then RunJobState.completed else RunJobState.failed)
                    ≡ RunJobState.failed)
                × ((if is_failed s then run.failure_alias else none) ≡ run.failure_alias))
      endings RunStatus.running e = absurd (cc e)
      endings RunStatus.completed e = inl (refl, refl, refl)
      endings RunStatus.failed e = inr (refl, refl, refl)
