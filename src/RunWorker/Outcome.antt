-- ===== src/RunWorker/Outcome.antt =====
-- What each outcome of a worker says of the database.
use voxbench.Base.{
  ℕ, ◌+◌, ◌≡◌, ◌⊎◌, refl, ap, subst, String, Bool, true, false, ◌&&◌, Option, none, some, arith,
  inl, inr, Bool-cases, if◌then◌else◌,
}
use voxbench.JobQueue.Row.{RunJobLease, Table, ok, >>=-eq-ok, ok-injective, seconds}
use voxbench.JobQueue.Operations.{fail, is_active}
use voxbench.JobQueue.Outcomes.{Denotes, fail-ok}
use voxbench.JobQueue.Invariant.{IsValid}
use voxbench.JobQueue.Replacing.{Replaced, FailedAttempt}
use voxbench.JobQueue.Replies.{fail-Exact}
use voxbench.Repository.{
  is_completed, is_failed, is_none, StoredRun, Database, commit_leased_result,
}
use voxbench.Repository.Outcomes.{Matches, commit_leased_result-cases}
use voxbench.Repository.Commit.{Committed, commit-Outcome}
use voxbench.RunWorker.{
  RunWorkerOutcome, completed, retry_scheduled, failed, run_missing, lease_lost, RunJobWorker,
  RunWorkerResult, Circumstances, failed_run, record_failure, failure_of, record_result,
  missing_run, run_leased,
}

if-taken {ℓ} :
    {A : Type ℓ} (b : Bool) (x y : A) {z : A} → b ≡ true → (if b then x else y) ≡ z → x ≡ z
if-taken true x y e h = h
if-taken false x y e h = absurd (cc)

if-passed {ℓ} :
    {A : Type ℓ} (b : Bool) (x y : A) {z : A} → b ≡ false → (if b then x else y) ≡ z → y ≡ z
if-passed true x y e h = absurd (cc)
if-passed false x y e h = h

module _ {R : Type 0} (m : ℕ) where
  commit_reply :
      (run : StoredRun R) (lease : RunJobLease) (worker : String) (now : ℕ) (db db' : Database R)
      (reply : Bool)
      → IsValid m db.jobs
      → commit_leased_result run lease worker now db ≡ ok (db', reply)
      → ((reply ≡ true)
          × (i r k : ℕ) × Matches run lease r i k
          × Committed i r k now worker run db db')
        ⊎ ((reply ≡ false) × (db' ≡ db))
  commit_reply run lease worker now db db' reply v h =
      elim (commit_leased_result-cases run lease worker now db h) [
        | inl e ↦ inr (ap (λ x. x.1) e, ap (λ x. x.0) e)
        | inr (r, i, k, match, _) ↦
            elim (commit-Outcome m run lease worker now db db' reply i r k v match h) [
              | inl (e, done) ↦ inl (e, i, r, k, match, done)
              | inr (e, same, _) ↦ inr (e, same)
            ]
      ]

fail_reply :
    (m : ℕ) (lease : RunJobLease) (worker alias : String) (re : Bool) (delay now : ℕ) (t t' : Table)
    (reply : Bool)
    → IsValid m t
    → fail m lease worker alias re delay now t ≡ ok (t', reply)
    → ((reply ≡ true)
        × (i k : ℕ) × Denotes lease i k
        × Replaced i
            (is_active i k worker now)
            (FailedAttempt m alias re (now + seconds delay))
            t
            t')
      ⊎ ((reply ≡ false) × (t' ≡ t))
fail_reply m lease worker alias re delay now t t' reply v h =
    let (i, k, den, _) = fail-ok m lease worker alias re delay now t h in
    elim (fail-Exact m t t' lease i k worker now reply v den alias re delay h) [
      | inl (e, done) ↦ inl (e, i, k, den, done)
      | inr (e, same, _) ↦ inr (e, same)
    ]

-- What the worker wrote to the database `seen`, by the outcome that it reports.
pub data Explained {R : Type 0} (m : ℕ) (w : RunJobWorker) (c : Circumstances R)
    (lease : RunJobLease) (seen db' : Database R) : RunWorkerOutcome → Type 0 where
  stored_completed :
      (run : StoredRun R) (i r k : ℕ)
      → Matches run lease r i k
      → is_completed run.status ≡ true
      → Committed i r k c.written_at w.worker_id run seen db'
      → Explained m w c lease seen db' completed
  stored_failed :
      (run : StoredRun R) (i r k : ℕ)
      → Matches run lease r i k
      → is_failed run.status ≡ true
      → lease.final_attempt ≡ true
      → Committed i r k c.written_at w.worker_id run seen db'
      → Explained m w c lease seen db' failed
  returned :
      (alias : String) (i k : ℕ)
      → Denotes lease i k
      → lease.final_attempt ≡ false
      → Replaced i
          (is_active i k w.worker_id c.written_at)
          (FailedAttempt m alias true (c.written_at + seconds w.retry_delay_seconds))
          seen.jobs
          db'.jobs
      → db'.runs ≡ seen.runs
      → Explained m w c lease seen db' retry_scheduled
  given_up :
      (i k : ℕ)
      → Denotes lease i k
      → Replaced i
          (is_active i k w.worker_id c.written_at)
          (FailedAttempt m "run-not-found" false (c.written_at + seconds 0))
          seen.jobs
          db'.jobs
      → db'.runs ≡ seen.runs
      → Explained m w c lease seen db' run_missing
  wrote_nothing : db' ≡ seen → Explained m w c lease seen db' lease_lost

module _ {R : Type 0} (m : ℕ) (w : RunJobWorker) (c : Circumstances R) (lease : RunJobLease)
    (seen : Database R) (v : IsValid m seen.jobs) where
  abbrev Tells : Database R × RunWorkerResult → Type 0
  Tells x = Explained m w c lease seen x.0 x.1.outcome

  committed_failed :
      (run : StoredRun R) (alias : String) (x : Database R × Bool)
      → lease.final_attempt ≡ true
      → commit_leased_result (failed_run m w c run alias) lease w.worker_id c.written_at seen ≡ ok x
      → Explained m w c lease seen x.0 (if x.1 then failed else lease_lost)
  unfolding failed_run
  committed_failed run alias (db', reply) final h =
      elim (commit_reply m (failed_run m w c run alias) lease w.worker_id c.written_at seen db'
        reply v h) [
          | inl (e, i, r, k, match, done) ↦
              rw e
                (Explained.stored_failed (failed_run m w c run alias) i r k match refl final done)
          | inr (e, same) ↦ rw e (Explained.wrote_nothing same)
        ]

  committed_completed :
      (run : StoredRun R) (x : Database R × Bool)
      → is_completed run.status ≡ true
      → commit_leased_result run lease w.worker_id c.written_at seen ≡ ok x
      → Explained m w c lease seen x.0 (if x.1 then completed else lease_lost)
  committed_completed run (db', reply) done h =
      elim (commit_reply m run lease w.worker_id c.written_at seen db' reply v h) [
        | inl (e, i, r, k, match, stored) ↦
            rw e (Explained.stored_completed run i r k match done stored)
        | inr (e, same) ↦ rw e (Explained.wrote_nothing same)
      ]

  retried :
      (alias : String) (x : Table × Bool)
      → lease.final_attempt ≡ false
      → fail m lease w.worker_id alias true w.retry_delay_seconds c.written_at seen.jobs ≡ ok x
      → Explained m w c lease seen
          (record seen { jobs = x.0 })
          (if x.1 then retry_scheduled else lease_lost)
  retried alias (t', reply) more h =
      elim (fail_reply m lease w.worker_id alias true w.retry_delay_seconds c.written_at seen.jobs
        t' reply v h) [
          | inl (e, i, k, den, done) ↦ rw e (Explained.returned alias i k den more done refl)
          | inr (e, same) ↦ rw e (
              Explained.wrote_nothing
                (ap (λ u. let d : Database R = record seen { jobs = u } in d) same))
        ]

  missed :
      (x : Table × Bool)
      → fail m lease w.worker_id "run-not-found" false 0 c.written_at seen.jobs ≡ ok x
      → Explained m w c lease seen
          (record seen { jobs = x.0 })
          (if x.1 then run_missing else lease_lost)
  missed (t', reply) h =
      elim (fail_reply m lease w.worker_id "run-not-found" false 0 c.written_at seen.jobs t' reply v
        h) [
          | inl (e, i, k, den, done) ↦ rw e (Explained.given_up i k den done refl)
          | inr (e, same) ↦ rw e (
              Explained.wrote_nothing
                (ap (λ u. let d : Database R = record seen { jobs = u } in d) same))
        ]

  record_failure-Explained :
      (run : StoredRun R) (alias : String) (x : Database R × RunWorkerResult)
      → record_failure m w c run lease alias seen ≡ ok x
      → Tells x
  unfolding record_failure
  record_failure-Explained run alias x h = elim (Bool-cases lease.final_attempt) [
    | inl e ↦
        let (y, a, b) = >>=-eq-ok _ _ (if-taken lease.final_attempt _ _ e h) in
        subst Tells (ok-injective _ x b) (committed_failed run alias y e a)
    | inr e ↦
        let (y, a, b) = >>=-eq-ok _ _ (if-passed lease.final_attempt _ _ e h) in
        subst Tells (ok-injective _ x b) (retried alias y e a)
  ]

  record_result-Explained :
      (run : StoredRun R) (raised : Bool) (x : Database R × RunWorkerResult)
      → record_result m w c run raised lease seen ≡ ok x
      → Tells x
  unfolding record_result
  record_result-Explained run true x h = record_failure-Explained run "engine-harness-error" x h
  record_result-Explained run false x h =
      elim (Bool-cases
        (is_completed run.status && (if is_none run.ended_at then false else true))) [
          | inl e ↦
              let (y, a, b) = >>=-eq-ok _ _ (
                if-taken (is_completed run.status && (if is_none run.ended_at then false else true))
                  _ _ e h) in
              subst Tells (ok-injective _ x b) (committed_completed run y (ground arith) a)
          | inr e ↦ record_failure-Explained run (failure_of run) x (
              if-passed (is_completed run.status && (if is_none run.ended_at then false else true))
                _ _ e h)
        ]

pub run_leased-Explained :
    {R : Type 0} (m : ℕ) (w : RunJobWorker) (c : Circumstances R) (lease : RunJobLease)
    (found : Option (StoredRun R)) (db : Database R) (x : Database R × RunWorkerResult)
    → IsValid m (c.before_write db).jobs
    → run_leased m w c found lease db ≡ ok x
    → Explained m w c lease (c.before_write db) x.0 x.1.outcome
unfolding run_leased missing_run
run_leased-Explained m w c lease none db x v h =
    let (y, a, b) = >>=-eq-ok _ _ h in
    subst (Tells m w c lease (c.before_write db) v) (ok-injective _ x b)
      (missed m w c lease (c.before_write db) v y a)
run_leased-Explained m w c lease (some run) db x v h = elim (Bool-cases c.lease_active) [
  | inl e ↦
      record_result-Explained m w c lease (c.before_write db) v (c.execute run).0 (c.execute run).1
        x (if-taken c.lease_active _ _ e h)
  | inr e ↦
      subst (Tells m w c lease (c.before_write db) v)
        (ok-injective _ x (if-passed c.lease_active _ _ e h)) (Explained.wrote_nothing refl)
]
