-- ===== src/Tests/Execution.antt =====
-- A run that a worker executes and commits.
use voxbench.Heartbeat.{Beat, stop_heartbeat}
use voxbench.Heartbeat.Kept.{Renewed, sent, stop_heartbeat-Renewed}
use voxbench.Base.{◌↔◌, Bool, ℕ, List, ◌≡◌, refl, true, false, none, some, [], ◌∷◌}
use voxbench.Alias.{is_safe_alias}
use voxbench.JobQueue.Row.{ok}
use voxbench.JobQueue.Operations.{claim}
use voxbench.Repository.{StoredRun, Database, RunStatus, get_run, commit_leased_result}
use voxbench.Repository.Commit.{Outcome, commit-Outcome}
use voxbench.RunWorker.RunOne.{Accounted, run_one-Accounted}
use voxbench.Supervisor.{Round, Supervisor, run_loop}
use voxbench.Supervisor.Counts.{Counted, executed, run_loop-Counted}
use voxbench.RunWorker.{
  RunWorkerOutcome, RunWorkerResult, RunJobWorker, Circumstances, new_worker, run_one,
}
use voxbench.RunWorker.Total.{Returns, run_one-Returns}
use voxbench.Tests.Queue.{
  limit, two_jobs, one_leased, lease_a, unlocked, closed, one_leased-IsValid, two_jobs-IsValid,
  lease_a-Denotes,
}

abbrev run_8 : StoredRun ℕ
run_8 = record {
  run_id = some 8;
  status = RunStatus.running;
  started_at = 3;
  ended_at = none;
  failure_alias = none;
  rest = 0;
}

abbrev done_8 : StoredRun ℕ
done_8 = record run_8 { status = RunStatus.completed; ended_at = some 19; rest = 5 }

abbrev db : Database ℕ
db = record { jobs = one_leased; runs = (8, run_8) ∷ [] }

abbrev db_done : Database ℕ
db_done = record { jobs = closed; runs = (8, done_8) ∷ [] }

commit_runs : commit_leased_result done_8 lease_a "a" 20 db ≡ ok (db_done, true)
unfolding commit_leased_result
commit_runs = refl

commit-Outcome_example : Outcome 2 8 90 20 "a" done_8 db db_done true
commit-Outcome_example =
    commit-Outcome limit done_8 lease_a "a" 20 db db_done true 2 8 90 one_leased-IsValid
      (record { run_named = refl; lease_named = refl; denotes = lease_a-Denotes }) commit_runs

abbrev worker_a : RunJobWorker
worker_a = record {
  worker_id = "a";
  lease_seconds = 60;
  heartbeat_interval_ms = 10_000;
  retry_delay_seconds = 5;
}

abbrev calm : Circumstances ℕ
calm = record {
  claimed_at = 10;
  new_token = 90;
  locked = unlocked;
  before_get = λ x. x;
  execute = λ run. (done_8, false);
  lease_active = true;
  before_write = λ x. x;
  written_at = 20;
  ended_at = 20;
}

built : new_worker worker_a ≡ ok worker_a
unfolding new_worker is_safe_alias
built = refl

run_one-Returns_example :
    Returns (run_one limit worker_a calm (record { jobs = two_jobs; runs = (8, run_8) ∷ [] }))
run_one-Returns_example =
    run_one-Returns limit worker_a calm (record { jobs = two_jobs; runs = (8, run_8) ∷ [] }) built

abbrev done : Database ℕ × RunWorkerResult
done = (
  db_done,
  record {
    outcome = RunWorkerOutcome.completed;
    job_id = some (some 2);
    run_id = some (some 8);
    attempt = some 1;
  },
)

works : run_one limit worker_a calm (record { jobs = two_jobs; runs = (8, run_8) ∷ [] }) ≡ ok done
unfolding run_one is_safe_alias claim get_run commit_leased_result
works = refl

run_one-Accounted_example :
    Accounted limit worker_a calm (record { jobs = two_jobs; runs = (8, run_8) ∷ [] }) done
run_one-Accounted_example =
    run_one-Accounted limit worker_a calm (record { jobs = two_jobs; runs = (8, run_8) ∷ [] }) done
      two_jobs-IsValid (λ d v. v) (λ d v. v) works

abbrev rounds : List Round
rounds =
    record { stop_set = false; reported = some RunWorkerOutcome.completed; stopped_waiting = false }
    ∷ record { stop_set = false; reported = none; stopped_waiting = false }
    ∷ record {
      stop_set = false;
      reported = some RunWorkerOutcome.lease_lost;
      stopped_waiting = true;
    }
    ∷ record { stop_set = true; reported = none; stopped_waiting = false }
    ∷ []

abbrev fresh_supervisor : Supervisor
fresh_supervisor = record {
  thread = some true;
  stop_requested = false;
  totals = record { processed = 0; errors = 0; lost = 0 };
}

run_loop-Counted_example :
    Counted fresh_supervisor.totals (run_loop rounds fresh_supervisor.totals).0 (executed rounds)
run_loop-Counted_example = run_loop-Counted rounds fresh_supervisor.totals

abbrev beats : List Beat
beats =
    record { stop_set = false; answer = some true } ∷ record { stop_set = true; answer = none } ∷ []

stop_heartbeat-Renewed_example :
    (stop_heartbeat false beats ≡ true) ↔ ((◌≡◌ {A = Bool} false false) × Renewed (sent beats))
stop_heartbeat-Renewed_example = stop_heartbeat-Renewed false beats
