-- ===== src/Leases/Fencing/Refusal.antt =====
-- What refuses a lease whose token its job does not hold.
use voxbench.Base.{
  ℕ, ◌+◌, ◌≡◌, ◌≢◌, refl, sym, ap, subst, subst₂, ◌∙◌, String, Bool, false, some, All, All-of_mem,
  Memᴰ, arith, some_inj, inl, inr, column_eq,
}
use voxbench.JobQueue.Row.{RunJob, Table, RunJobLease, Result, ok, err, Error, seconds}
use voxbench.JobQueue.Operations.{
  is_active, extend_row, close_row, fail_job, heartbeat, complete, fail,
}
use voxbench.JobQueue.Outcomes.{Denotes, heartbeat-ok, complete-ok, fail-ok}
use voxbench.JobQueue.Updates.{update_one-none, first_where-none}
use voxbench.JobQueue.Invariant.{IsValid}
use voxbench.JobQueue.Rows.{job, ids, job-mem, Distinct}
use voxbench.Repository.{StoredRun, Database, may_commit, commit_job, commit_leased_result}
use voxbench.Repository.Outcomes.{commit_leased_result-cases}
use voxbench.Leases.Steps.{World}
use voxbench.Leases.Fencing.Tokens.{Lost}

-- The operation raises, or answers False and leaves things as they are.
pub data Refuses {A : Type 0} (same : A) : Result (A × Bool) → Type 0 where
  answers_false : Refuses same (ok (same, false))
  raises : (e : Error) → Refuses same (err e)

refuses :
    {A : Type 0} (same : A) (r : Result (A × Bool))
    → ((a : A) (b : Bool) → r ≡ ok (a, b) → (a ≡ same) × (b ≡ false))
    → Refuses same r
refuses same (ok (a, b)) h =
    let (e, f) = h a b refl in
    subst₂ (λ x y. Refuses same (ok (x, y))) (sym e) (sym f) Refuses.answers_false
refuses same (err e) h = Refuses.raises e

-- Every operation that takes the lease refuses it, whoever calls it, with whatever and whenever.
pub record Refused {R : Type 0} (m : ℕ) (lease : RunJobLease) (w : World R) : Type 0 where
  pub no_heartbeat :
      (worker : String) (lease_seconds now : ℕ)
      → Refuses w.db.jobs (heartbeat lease worker lease_seconds now w.db.jobs)
  pub no_complete :
      (worker : String) (now : ℕ) → Refuses w.db.jobs (complete lease worker now w.db.jobs)
  pub no_fail :
      (worker alias : String) (retryable : Bool) (delay now : ℕ)
      → Refuses w.db.jobs (fail m lease worker alias retryable delay now w.db.jobs)
  pub no_commit :
      (run : StoredRun R) (worker : String) (now : ℕ)
      → Refuses w.db (commit_leased_result run lease worker now w.db)

fail_job-none :
    (m : ℕ) (p : RunJob → Bool) (a : String) (re : Bool) (at : ℕ) (t : Table)
    → All (λ row. p row ≡ false) t
    → fail_job m p a re at t ≡ (t, false)
unfolding fail_job
fail_job-none m p a re at t h = rw (first_where-none p t h, fail_job)

commit_job-none :
    {R : Type 0} (j r k : ℕ) (run : StoredRun R) (w : String) (now : ℕ) (db : Database R)
    → All (λ row. may_commit j r k w now row ≡ false) db.jobs
    → commit_job j r k run w now db ≡ (db, false)
unfolding commit_job
commit_job-none j r k run w now db h =
    rw (first_where-none (may_commit j r k w now) db.jobs h, commit_job)

module _ (t : Table) (i k : ℕ) (d : Distinct (ids t)) (lost : Lost k (job i t)) where
  -- A row of the job does not hold the token.
  lost_mem : (row : RunJob) → Memᴰ row t → row.id ≡ i → column_eq row.lease_token k ≡ false
  lost_mem row mem q =
      let found : job i t ≡ some row = ap (λ n. job n t) (sym q) ∙ job-mem t row d mem in
      let gone : row.lease_token ≢ some k = subst (Lost k) found lost in ground arith

  inactive : (w : String) (now : ℕ) → All (λ row. is_active i k w now row ≡ false) t
  unfolding is_active
  inactive w now = All-of_mem _ t (λ row mem. ground (arith, lost_mem row mem))

  no_commit : (r : ℕ) (w : String) (now : ℕ) → All (λ row. may_commit i r k w now row ≡ false) t
  unfolding may_commit
  no_commit r w now = All-of_mem _ t (λ row mem. ground (arith, lost_mem row mem))

abbrev both {ℓ} : {A : Type ℓ} {a b : A × Bool} → a ≡ b → (a.0 ≡ b.0) × (a.1 ≡ b.1)
both e = (ap (λ p. p.0) e, ap (λ p. p.1) e)

module _ (t : Table) (lease : RunJobLease) (i k : ℕ) (d : Distinct (ids t))
    (den : Denotes lease i k) (lost : Lost k (job i t)) {j l : ℕ} (den' : Denotes lease j l) where
  -- The texts of a lease denote one job and one token.
  same_job : i ≡ j
  same_job = some_inj i j (sym den.names_job ∙ den'.names_job)

  same_token : k ≡ l
  same_token = some_inj k l (sym den.names_token ∙ den'.names_token)

  lease_inactive : (w : String) (now : ℕ) → All (λ row. is_active j l w now row ≡ false) t
  lease_inactive w now =
      subst₂ (λ a b. All (λ row. is_active a b w now row ≡ false) t) same_job same_token
        (inactive t i k d lost w now)

  lease_no_commit :
      (r : ℕ) (w : String) (now : ℕ) → All (λ row. may_commit j r l w now row ≡ false) t
  lease_no_commit r w now =
      subst₂ (λ a b. All (λ row. may_commit a r b w now row ≡ false) t) same_job same_token
        (no_commit t i k d lost r w now)

module _ {R : Type 0} (m : ℕ) {w : World R} (lease : RunJobLease) (i k : ℕ) where
  pub Lost-Refused :
      IsValid m w.db.jobs → Denotes lease i k → Lost k (job i w.db.jobs) → Refused m lease w
  unfolding fail_job commit_job
  Lost-Refused v den lost = record {
    no_heartbeat = λ worker s now.
        refuses w.db.jobs (heartbeat lease worker s now w.db.jobs) (λ t' reply h.
          let (j, l, den', e) = heartbeat-ok lease worker s now w.db.jobs h in
          both (
            sym e
            ∙ update_one-none (is_active j l worker now) (extend_row (now + seconds s)) w.db.jobs
                (lease_inactive w.db.jobs lease i k v.own_ids den lost den' worker now)));
    no_complete = λ worker now.
        refuses w.db.jobs (complete lease worker now w.db.jobs) (λ t' reply h.
          let (j, l, den', e) = complete-ok lease worker now w.db.jobs h in
          both (
            sym e
            ∙ update_one-none (is_active j l worker now) close_row w.db.jobs
                (lease_inactive w.db.jobs lease i k v.own_ids den lost den' worker now)));
    no_fail = λ worker a re delay now.
        refuses w.db.jobs (fail m lease worker a re delay now w.db.jobs) (λ t' reply h.
          let (j, l, den', e) = fail-ok m lease worker a re delay now w.db.jobs h in
          both (
            sym e
            ∙ fail_job-none m (is_active j l worker now) a re (now + seconds delay) w.db.jobs
                (lease_inactive w.db.jobs lease i k v.own_ids den lost den' worker now)));
    no_commit = λ run worker now.
        refuses w.db (commit_leased_result run lease worker now w.db) (λ db' reply h.
          elim (commit_leased_result-cases run lease worker now w.db h) [
            | inl e ↦ both e
            | inr (r, j, l, match, e) ↦ both (
                e
                ∙ commit_job-none j r l run worker now w.db (
                    lease_no_commit w.db.jobs lease i k v.own_ids den lost match.denotes r worker
                      now))
          ]);
  }
