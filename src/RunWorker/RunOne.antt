-- ===== src/RunWorker/RunOne.antt =====
-- What `run_one` reports and what it did, from the claim to the write.
use voxbench.Base.{ℕ, ◌+◌, ◌≡◌, refl, subst, Option, none, some}
use voxbench.JobQueue.Row.{RunJobLease, Table, ok, >>=-eq-ok, ok-injective, seconds}
use voxbench.JobQueue.Operations.{claim}
use voxbench.JobQueue.Outcomes.{claim-ok}
use voxbench.JobQueue.Invariant.{IsValid}
use voxbench.JobQueue.Kept.{claim_job-IsValid}
use voxbench.Repository.{Database, get_run}
use voxbench.RunWorker.{idle, RunJobWorker, RunWorkerResult, Circumstances, run_claimed, run_one}
use voxbench.RunWorker.Outcome.{Explained, run_leased-Explained}

module _ {R : Type 0} (m : ℕ) (w : RunJobWorker) (c : Circumstances R) (db : Database R) where
  abbrev with_table : Table → Database R
  with_table t = record db { jobs = t }

  -- Nothing was claimed and the worker says idle, or a lease was claimed, and the outcome is explained
  -- by what was written to the database as the other transactions left it.
  pub data Accounted (x : Database R × RunWorkerResult) : Type 0 where
    was_idle :
        (t : Table)
        → claim m w.worker_id w.lease_seconds c.claimed_at c.new_token c.locked db.jobs
          ≡ ok (t, none)
        → x.0 ≡ with_table t
        → x.1.outcome ≡ idle
        → Accounted x
    worked :
        (t : Table) (lease : RunJobLease)
        → claim m w.worker_id w.lease_seconds c.claimed_at c.new_token c.locked db.jobs
          ≡ ok (t, some lease)
        → Explained m w c lease (c.before_write (c.before_get (with_table t))) x.0 x.1.outcome
        → Accounted x

  run_claimed-Accounted :
      (lease : Option RunJobLease) (t : Table) (x : Database R × RunWorkerResult)
      → claim m w.worker_id w.lease_seconds c.claimed_at c.new_token c.locked db.jobs
        ≡ ok (t, lease)
      → IsValid m (c.before_write (c.before_get (with_table t))).jobs
      → run_claimed m w c lease (with_table t) ≡ ok x
      → Accounted x
  unfolding run_claimed
  run_claimed-Accounted none t x k v h =
      let e = ok-injective _ x h in subst Accounted e (Accounted.was_idle t k refl refl)
  run_claimed-Accounted (some lease) t x k v h = Accounted.worked t lease k (
      run_leased-Explained m w c lease (get_run lease.run_id (c.before_get (with_table t)))
        (c.before_get (with_table t)) x v h)

  -- On a database with a valid table, with other transactions that keep it valid, what run_one
  -- returns accounts for the database: completed or failed says that the run was stored under a
  -- live lease, retry_scheduled and run_missing that the job was given back or failed under a live
  -- lease, lease_lost that the worker wrote nothing, and idle that there was nothing to claim.
  pub run_one-Accounted :
      (x : Database R × RunWorkerResult)
      → IsValid m db.jobs
      → ((d : Database R) → IsValid m d.jobs → IsValid m (c.before_get d).jobs)
      → ((d : Database R) → IsValid m d.jobs → IsValid m (c.before_write d).jobs)
      → run_one m w c db ≡ ok x
      → Accounted x
  unfolding run_one
  run_one-Accounted x v get write h =
      let (y, a, b) = >>=-eq-ok _ _ h in
      let kept =
        subst (λ (z : Table × Option RunJobLease). IsValid m z.0)
          (claim-ok m w.worker_id w.lease_seconds c.claimed_at c.new_token c.locked db.jobs a)
          (claim_job-IsValid m w.worker_id (c.claimed_at + seconds w.lease_seconds) c.claimed_at
            c.new_token c.locked db.jobs v) in
      run_claimed-Accounted y.1 y.0 x a (write _ (get _ kept)) b
