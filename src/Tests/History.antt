-- ===== src/Tests/History.antt =====
-- A lease that expires and is taken over, as transactions on the shared database.
use voxbench.Base.{
  ℕ, ◌≡◌, ◌≢◌, refl, true, false, none, some, List, [], ◌∷◌, ◌≤◌, ◌<◌, leb, ◌==◌, Memᴰ, arith,
}
use voxbench.Alias.{is_safe_alias}
use voxbench.JobQueue.Row.{RunJob, Table, RunJobLease, ok, leased, completed}
use voxbench.JobQueue.Operations.{claim}
use voxbench.JobQueue.Rows.{job}
use voxbench.JobQueue.Invariant.{IsValid}
use voxbench.Leases.Steps.{World, Step, Reach}
use voxbench.Leases.Validity.{reach-IsValid}
use voxbench.Leases.Terminal.{reach_terminal}
use voxbench.Leases.Fencing.{superseded_lease-Refused}
use voxbench.Leases.Fencing.Refusal.{Refused}
use voxbench.Leases.Holding.{heartbeat_protects, Grant, lease_attempts_rise}
use voxbench.Tests.Queue.{
  limit, two_jobs, one_leased, lease_a, unlocked, first_job, leased_row, extended, closed,
  two_jobs-IsValid, one_leased-IsValid, lease_a-Denotes, claim_runs, beat_runs, complete_runs,
}

abbrev world : Table → List ℕ → World ℕ
world t issued = record { db = record { jobs = t; runs = [] }; issued = issued }

-- Worker `a` claims job 2, and completes it.
abbrev claimed : Reach limit (world two_jobs []) (world one_leased (90 ∷ []))
claimed =
    Reach.next Reach.here
      (Step.claims "a" 60 10 90 unlocked one_leased (some lease_a) tt claim_runs)

abbrev finished : Reach limit (world two_jobs []) (world closed (90 ∷ []))
finished = Reach.next claimed (Step.completes lease_a "a" 20 closed true complete_runs)

reach-IsValid_example : IsValid limit closed
reach-IsValid_example = reach-IsValid limit finished two_jobs-IsValid

-- Worker `b` takes job 1 after job 2 was completed, which stays as it is.
abbrev job_2_closed : RunJob
job_2_closed = record leased_row {
  state = completed;
  lease_owner = none;
  lease_token = none;
  lease_expires_at = none;
}

abbrev lease_1 : RunJobLease
lease_1 = record {
  job_id = some 1;
  run_id = some 7;
  token = some 91;
  attempt = 1;
  expires_at = 60_000_030;
  final_attempt = false;
}

abbrev both_taken : Table
both_taken =
    record first_job {
      state = leased;
      lease_owner = some "b";
      lease_token = some 91;
      lease_expires_at = some 60_000_030;
      attempts = 1;
    }
    ∷ job_2_closed
    ∷ []

b_runs : claim limit "b" 60 30 91 unlocked closed ≡ ok (both_taken, some lease_1)
unfolding claim is_safe_alias
b_runs = refl

closed-IsValid : IsValid limit closed
closed-IsValid = record {
  rows = (ground arith, (ground arith, tt));
  own_ids = omega arith;
  own_runs = omega arith;
}

fresh_91 : ◌≢◌ {A = ℕ} 90 91
fresh_91 = omega arith

abbrev later : Reach limit (world closed (90 ∷ [])) (world both_taken (91 ∷ 90 ∷ []))
later =
    Reach.next Reach.here
      (Step.claims "b" 60 30 91 unlocked both_taken (some lease_1) (fresh_91, tt) b_runs)

reach_terminal_example : job 2 both_taken ≡ some job_2_closed
reach_terminal_example =
    reach_terminal limit 2 job_2_closed closed-IsValid later (unfold job in refl) refl

-- The lease of `a` has expired, and `b` takes job 2 over while job 1 is locked.
abbrev taken_over : Table
taken_over =
    first_job
    ∷ record leased_row {
      lease_owner = some "b";
      lease_token = some 91;
      lease_expires_at = some 120_000_010;
      attempts = 2;
    }
    ∷ []

abbrev lease_b : RunJobLease
lease_b = record {
  job_id = some 2;
  run_id = some 8;
  token = some 91;
  attempt = 2;
  expires_at = 120_000_010;
  final_attempt = false;
}

takes_over :
    claim limit "b" 60 60_000_010 91 (λ i. i == 1) one_leased ≡ ok (taken_over, some lease_b)
unfolding claim is_safe_alias
takes_over = refl

superseded_lease-Refused_example : Refused limit lease_a (world taken_over (91 ∷ 90 ∷ []))
superseded_lease-Refused_example =
    superseded_lease-Refused limit {w = world one_leased (90 ∷ [])} lease_a lease_b 2 90 "b" 60
      60_000_010 91 (λ i. i == 1) taken_over one_leased-IsValid lease_a-Denotes (Memᴰ.head refl)
      (fresh_91, tt) takes_over refl Reach.here

-- Job 1 goes to `c` while the extended lease of job 2 is held.
abbrev beside : Table
beside =
    record first_job {
      state = leased;
      lease_owner = some "c";
      lease_token = some 92;
      lease_expires_at = some 120_000_012;
      attempts = 1;
    }
    ∷ record leased_row { lease_expires_at = some 60_000_020 }
    ∷ []

abbrev lease_c : RunJobLease
lease_c = record {
  job_id = some 1;
  run_id = some 7;
  token = some 92;
  attempt = 1;
  expires_at = 120_000_012;
  final_attempt = false;
}

c_runs : claim limit "c" 60 60_000_012 92 unlocked extended ≡ ok (beside, some lease_c)
unfolding claim is_safe_alias
c_runs = refl

heartbeat_protects_example : lease_c.job_id ≢ some 2
heartbeat_protects_example =
    heartbeat_protects limit one_leased extended beside lease_a lease_c 2 90 "a" "c" 60 20 60
      60_000_012 92 unlocked one_leased-IsValid lease_a-Denotes beat_runs c_runs (omega arith)

abbrev grant_a : Grant limit (world two_jobs []) (world one_leased (90 ∷ [])) 2 lease_a
grant_a = record {
  worker = "a";
  lease_seconds = 60;
  now = 10;
  token = 90;
  locked = unlocked;
  jobs = one_leased;
  fresh = tt;
  claimed = claim_runs;
  names = refl;
  result = refl;
}

abbrev grant_b :
    Grant limit (world one_leased (90 ∷ [])) (world taken_over (91 ∷ 90 ∷ [])) 2 lease_b
grant_b = record {
  worker = "b";
  lease_seconds = 60;
  now = 60_000_010;
  token = 91;
  locked = λ i. i == 1;
  jobs = taken_over;
  fresh = (fresh_91, tt);
  claimed = takes_over;
  names = refl;
  result = refl;
}

lease_attempts_rise_example :
    (lease_a.attempt < lease_b.attempt)
    × (lease_b.attempt ≤ limit)
    × (lease_b.final_attempt ≡ leb limit lease_b.attempt)
lease_attempts_rise_example =
    lease_attempts_rise limit 2 lease_a lease_b two_jobs-IsValid grant_a Reach.here grant_b
