-- ===== src/RunWorker/Total.antt =====
-- A worker that was built never meets an error of an argument: its checks imply the queue's.
use voxbench.Base.{
  ℕ, ◌+◌, ◌≡◌, refl, ap, String, Bool, true, false, ◌&&◌, ◌||◌, not, Option, none, some, leb, arith,
  inl, inr, Bool-cases, Option-cases, if◌then◌else◌,
}
use voxbench.Alias.{is_safe_alias}
use voxbench.JobQueue.Row.{RunJobLease, Table, Result, ok, ◌>>=◌, seconds}
use voxbench.JobQueue.Operations.{
  claim, claim_job, lease_of, lease_row, fail, fail_job, is_active, active_lease_conditions,
}
use voxbench.JobQueue.Outcomes.{Denotes}
use voxbench.JobQueue.Claiming.{grant-some}
use voxbench.JobQueue.Statements.{expire_exhausted_jobs, claim_statement}
use voxbench.Repository.{
  is_completed, is_failed, is_none, StoredRun, Database, get_run, commit_texts,
  commit_leased_result,
}
use voxbench.RunWorker.{
  RunJobWorker, Circumstances, new_worker, failed_run, record_failure, failure_of, record_result,
  run_leased, run_claimed, run_one,
}

abbrev pub Returns {ℓ} : {A : Type ℓ} → Result A → Type ℓ
Returns {A = A} r = (x : A) × (r ≡ ok x)

-- A chain returns if its steps do.
>>=-Returns {ℓ κ} :
    {A : Type ℓ} {B : Type κ} (r : Result A) (f : A → Result B)
    → Returns r
    → ((x : A) → Returns (f x))
    → Returns (r >>= f)
>>=-Returns r f (x, e) h = let (y, e') = h x in (y, rw e e')

if-Returns {ℓ} :
    {A : Type ℓ} (b : Bool) (r s : Result A)
    → (b ≡ true → Returns r)
    → (b ≡ false → Returns s)
    → Returns (if b then r else s)
if-Returns true r s x y = x refl
if-Returns false r s x y = y refl

-- What the checks of a worker give.
pub record IsBuilt (w : RunJobWorker) : Type 0 where
  pub named : is_safe_alias w.worker_id ≡ true
  pub leasing : (leb 5 w.lease_seconds && leb w.lease_seconds 300) ≡ true
  pub delaying : leb w.retry_delay_seconds 3_600 ≡ true

pub new_worker-IsBuilt : (w : RunJobWorker) {w' : RunJobWorker} → new_worker w ≡ ok w' → IsBuilt w
unfolding new_worker
new_worker-IsBuilt w h = record {
  named = ground arith;
  leasing = ground arith;
  delaying = ground arith;
}

-- A lease that the queue granted names a job and a token.
abbrev HasIds : RunJobLease → Type 0
HasIds lease = (i k : ℕ) × Denotes lease i k

conditions_of :
    (lease : RunJobLease) (i k : ℕ) (worker : String) (now : ℕ)
    → Denotes lease i k
    → active_lease_conditions lease worker now ≡ ok (is_active i k worker now)
unfolding active_lease_conditions
conditions_of lease i k worker now den = ground (arith, den.names_job, den.names_token)

fail-Returns :
    (m : ℕ) (lease : RunJobLease) (worker alias : String) (re : Bool) (delay now : ℕ) (t : Table)
    → HasIds lease
    → is_safe_alias worker ≡ true
    → is_safe_alias alias ≡ true
    → leb delay 3_600 ≡ true
    → Returns (fail m lease worker alias re delay now t)
unfolding fail
fail-Returns m lease worker alias re delay now t (i, k, den) hw ha hd = (
  fail_job m (is_active i k worker now) alias re (now + seconds delay) t,
  rw (hw, ha, hd) (rw (conditions_of lease i k worker now den)),
)

module _ {R : Type 0} where
  commit-Returns :
      (run : StoredRun R) (lease : RunJobLease) (worker : String) (now : ℕ) (db : Database R)
      → ((is_completed run.status || is_failed run.status) && not (is_none run.ended_at)) ≡ true
      → Returns (commit_leased_result run lease worker now db)
  unfolding commit_leased_result
  commit-Returns run lease worker now db h =
      (commit_texts run.run_id lease.run_id lease.job_id lease.token run worker now db, rw h)

  -- The alias of a failed run is safe, whatever the run holds.
  failure_of-safe : (run : StoredRun R) → is_safe_alias (failure_of run) ≡ true
  unfolding failure_of is_safe_alias
  failure_of-safe run = elim (Option-cases run.failure_alias) [
    | inl e ↦ rw (e, failure_of) refl
    | inr (alias, e) ↦ elim (Bool-cases (is_failed run.status && is_safe_alias alias)) [
      | inl y ↦ rw (e, failure_of) (rw y (ground arith))
      | inr n ↦ rw (e, failure_of) (rw n refl)
    ]
  ]

  module _ (m : ℕ) (w : RunJobWorker) (c : Circumstances R) (b : IsBuilt w) (lease : RunJobLease)
      (h : HasIds lease) where
    record_failure-Returns :
        (run : StoredRun R) (alias : String) (db : Database R)
        → is_safe_alias alias ≡ true
        → Returns (record_failure m w c run lease alias db)
    unfolding record_failure
    record_failure-Returns run alias db safe =
        if-Returns lease.final_attempt _ _
          (λ _.
            >>=-Returns _ _
              (commit-Returns (failed_run m w c run alias) lease w.worker_id c.written_at db refl)
              (λ x. (_, refl)))
          (λ _.
            >>=-Returns _ _
              (fail-Returns m lease w.worker_id alias true w.retry_delay_seconds c.written_at
                db.jobs h b.named safe b.delaying)
              (λ x. (_, refl)))

    record_result-Returns :
        (run : StoredRun R) (raised : Bool) (db : Database R)
        → Returns (record_result m w c run raised lease db)
    unfolding record_result
    record_result-Returns run true db =
        record_failure-Returns run "engine-harness-error" db (unfold is_safe_alias in refl)
    record_result-Returns run false db =
        if-Returns (is_completed run.status && (if is_none run.ended_at then false else true)) _ _
          (λ done.
            >>=-Returns _ _ (commit-Returns run lease w.worker_id c.written_at db (ground arith))
              (λ x. (_, refl)))
          (λ _. record_failure-Returns run (failure_of run) db (failure_of-safe run))

    run_leased-Returns :
        (found : Option (StoredRun R)) (db : Database R) → Returns (run_leased m w c found lease db)
    unfolding run_leased
    run_leased-Returns none db =
        >>=-Returns _ _
          (fail-Returns m lease w.worker_id "run-not-found" false 0 c.written_at
            (c.before_write db).jobs h b.named (unfold is_safe_alias in refl) refl)
          (λ x. (_, refl))
    run_leased-Returns (some run) db =
        if-Returns c.lease_active _ _
          (λ _. record_result-Returns (c.execute run).0 (c.execute run).1 (c.before_write db))
          (λ _. (_, refl))

granted-HasIds :
    (m : ℕ) (worker : String) (e now token : ℕ) (locked : ℕ → Bool) (t : Table) {t' : Table}
    (lease : RunJobLease)
    → claim_job m worker e now token locked t ≡ (t', some lease)
    → HasIds lease
unfolding claim_job lease_of lease_row
granted-HasIds m worker e now token locked t lease h =
    let (row, _, _, granted) =
      grant-some m worker e now token locked t
        (claim_statement now m locked (expire_exhausted_jobs now m t))
        (expire_exhausted_jobs now m t) h in
    (
      row.id,
      token,
      record { names_job = ap (λ l. l.job_id) granted; names_token = ap (λ l. l.token) granted },
    )

claim_passes :
    (m : ℕ) (w : RunJobWorker) (now token : ℕ) (locked : ℕ → Bool) (t : Table)
    → IsBuilt w
    → claim m w.worker_id w.lease_seconds now token locked t
      ≡ ok (claim_job m w.worker_id (now + seconds w.lease_seconds) now token locked t)
unfolding claim
claim_passes m w now token locked t b = rw (b.named, b.leasing)

-- A worker that was built always returns from run_one: no argument that it passes to the queue or
-- the repository is refused.
pub run_one-Returns :
    {R : Type 0} (m : ℕ) (w : RunJobWorker) {w' : RunJobWorker} (c : Circumstances R)
    (db : Database R)
    → new_worker w ≡ ok w'
    → Returns (run_one m w c db)
unfolding run_one
run_one-Returns {R} m w c db h =
    rw (claim_passes m w c.claimed_at c.new_token c.locked db.jobs b) (elim (Option-cases taken.1) [
      | inl e ↦ rw (e, run_claimed) (_, refl)
      | inr (lease, e) ↦
          rw (e, run_claimed)
            (run_leased-Returns m w c b lease
              (granted-HasIds m w.worker_id until c.claimed_at c.new_token c.locked db.jobs lease
                (ap (λ o. (taken.0, o)) e))
              (get_run lease.run_id (c.before_get swept)) (c.before_get swept))
    ])
  where
    b : IsBuilt w
    b = new_worker-IsBuilt w h

    until : ℕ
    until = c.claimed_at + seconds w.lease_seconds

    taken : Table × Option RunJobLease
    taken = claim_job m w.worker_id until c.claimed_at c.new_token c.locked db.jobs

    swept : Database R
    swept = record db { jobs = taken.0 }
