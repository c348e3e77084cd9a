-- ===== src/Tests/Queue.antt =====
-- The queue at work: two jobs, two workers, a lease that expires and is taken over.
use voxbench.Base.{ℕ, ◌≡◌, refl, Bool, true, false, none, some, [], ◌∷◌, arith, All, ◌==◌}
use voxbench.Alias.{is_safe_alias}
use voxbench.JobQueue.Row.{RunJob, Table, RunJobLease, ok, queued, leased, completed}
use voxbench.JobQueue.Operations.{enqueue, claim, heartbeat, complete, fail, is_active, extend_row}
use voxbench.JobQueue.Outcomes.{Denotes}
use voxbench.JobQueue.Invariant.{IsValid}
use voxbench.JobQueue.Claiming.{Claimed, is_free, claim_takes_first, claim_finds_none}
use voxbench.JobQueue.Enqueue.{enqueue_twice}
use voxbench.JobQueue.Replacing.{Exact, Replacement, FailedAttempt}
use voxbench.JobQueue.Replies.{heartbeat-Exact, fail-Exact}

abbrev pub limit : ℕ
limit = 3

-- Two queued jobs, of the runs 7 and 8.
abbrev pub two_jobs : Table
two_jobs =
    record {
      id = 1;
      run_id = 7;
      state = queued;
      available_at = 5;
      lease_owner = none;
      lease_token = none;
      lease_expires_at = none;
      attempts = 0;
      failure_alias = none;
      created_at = 5;
    }
    ∷ record {
      id = 2;
      run_id = 8;
      state = queued;
      available_at = 4;
      lease_owner = none;
      lease_token = none;
      lease_expires_at = none;
      attempts = 0;
      failure_alias = none;
      created_at = 4;
    }
    ∷ []

-- Job 2 is leased to worker `a` with token 90 until 60 seconds past time 10.
abbrev pub leased_row : RunJob
leased_row = record {
  id = 2;
  run_id = 8;
  state = leased;
  available_at = 4;
  lease_owner = some "a";
  lease_token = some 90;
  lease_expires_at = some 60_000_010;
  attempts = 1;
  failure_alias = none;
  created_at = 4;
}

abbrev pub first_job : RunJob
first_job = record {
  id = 1;
  run_id = 7;
  state = queued;
  available_at = 5;
  lease_owner = none;
  lease_token = none;
  lease_expires_at = none;
  attempts = 0;
  failure_alias = none;
  created_at = 5;
}

abbrev pub one_leased : Table
one_leased = first_job ∷ leased_row ∷ []

abbrev pub lease_a : RunJobLease
lease_a = record {
  job_id = some 2;
  run_id = some 8;
  token = some 90;
  attempt = 1;
  expires_at = 60_000_010;
  final_attempt = false;
}

abbrev pub unlocked : ℕ → Bool
unlocked i = false

-- The earlier job is claimed first.
pub claim_runs : claim limit "a" 60 10 90 unlocked two_jobs ≡ ok (one_leased, some lease_a)
unfolding claim is_safe_alias
claim_runs = refl

pub two_jobs-IsValid : IsValid limit two_jobs
two_jobs-IsValid = record {
  rows = (ground arith, (ground arith, tt));
  own_ids = omega arith;
  own_runs = omega arith;
}

pub one_leased-IsValid : IsValid limit one_leased
one_leased-IsValid = record {
  rows = (ground arith, (ground arith, tt));
  own_ids = omega arith;
  own_runs = omega arith;
}

claim_takes_first_example :
    (row : RunJob) × Claimed limit "a" 60_000_010 10 90 unlocked two_jobs one_leased lease_a row
claim_takes_first_example =
    claim_takes_first limit "a" 60 10 90 unlocked two_jobs one_leased lease_a two_jobs-IsValid
      claim_runs

-- Job 1 is locked, and job 2 is leased.
claim_waits : claim limit "b" 60 11 91 (λ i. i == 1) one_leased ≡ ok (one_leased, none)
unfolding claim is_safe_alias
claim_waits = refl

claim_finds_none_example : All (λ row. is_free 11 limit (λ i. i == 1) row ≡ false) one_leased
claim_finds_none_example =
    claim_finds_none limit "b" 60 11 91 (λ i. i == 1) one_leased one_leased claim_waits

enqueue_twice_example : enqueue (some 8) 90 12 90 true two_jobs two_jobs ≡ ok (two_jobs, some 2)
enqueue_twice_example =
    enqueue_twice 8 70 11 70 90 12 90 true true two_jobs two_jobs (some 2) (unfold enqueue in refl)

pub lease_a-Denotes : Denotes lease_a 2 90
lease_a-Denotes = record { names_job = refl; names_token = refl }

-- The lease after a heartbeat at time 20.
abbrev pub extended : Table
extended = first_job ∷ record leased_row { lease_expires_at = some 60_000_020 } ∷ []

pub beat_runs : heartbeat lease_a "a" 60 20 one_leased ≡ ok (extended, true)
unfolding heartbeat is_safe_alias
beat_runs = refl

heartbeat-Exact_example :
    Exact 2 (is_active 2 90 "a" 20) (extend_row 60_000_020) one_leased extended true
heartbeat-Exact_example =
    heartbeat-Exact limit one_leased extended lease_a 2 90 "a" 20 true one_leased-IsValid
      lease_a-Denotes 60 beat_runs

abbrev pub closed : Table
closed =
    first_job
    ∷ record leased_row {
      state = completed;
      lease_owner = none;
      lease_token = none;
      lease_expires_at = none;
    }
    ∷ []

pub complete_runs : complete lease_a "a" 20 one_leased ≡ ok (closed, true)
unfolding complete is_safe_alias
complete_runs = refl

abbrev pub retried : Table
retried =
    first_job
    ∷ record leased_row {
      state = queued;
      available_at = 5_000_020;
      lease_owner = none;
      lease_token = none;
      lease_expires_at = none;
      failure_alias = some "boom";
    }
    ∷ []

fail_runs : fail limit lease_a "a" "boom" true 5 20 one_leased ≡ ok (retried, true)
unfolding fail is_safe_alias
fail_runs = refl

fail-Exact_example :
    Replacement 2
      (is_active 2 90 "a" 20)
      (FailedAttempt limit "boom" true 5_000_020)
      one_leased
      retried
      true
fail-Exact_example =
    fail-Exact limit one_leased retried lease_a 2 90 "a" 20 true one_leased-IsValid lease_a-Denotes
      "boom" true 5 fail_runs
