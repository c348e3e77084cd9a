-- ===== src/Leases/Holding.antt =====
-- Holding a lease: nobody else claims the job before it expires, and attempts rise with each lease.
use voxbench.Base.{
  ℕ, ◌+◌, ◌≤◌, ◌<◌, ◌≡◌, ◌≢◌, sym, ap, subst, ◌∙◌, String, Bool, true, false, Option, none, some,
  ◌∷◌, arith, some_inj, leb, List, inl, inr,
}
use voxbench.JobQueue.Row.{RunJob, Table, RunJobLease, ok, seconds}
use voxbench.JobQueue.Statements.{is_claimable, expire}
use voxbench.JobQueue.Operations.{
  is_active, extend_row, heartbeat, claim, lease_of, lease_row, close_row, fail_row,
}
use voxbench.JobQueue.Rows.{job, Absent}
use voxbench.JobQueue.Outcomes.{Denotes, heartbeat-ok, claim-ok}
use voxbench.JobQueue.Invariant.{IsValid}
use voxbench.JobQueue.Kept.{extend_row-KeepsKeys, update_one-IsValid, extend_row-IsWell}
use voxbench.JobQueue.Claiming.{
  Claimed, claim_job-some, Claimed-job_id, Claimed-claimable, Claimed-attempt,
}
use voxbench.JobQueue.Replies.{heartbeat-Exact}
use voxbench.Repository.{finish_row}
use voxbench.Leases.Rows.{
  RowStep, exhausts, leases, extends, closes, fails, finishes, RowSteps, stays, then_, JobSteps,
  moves, missing, added,
}
use voxbench.Leases.Moves.{Step-JobSteps}
use voxbench.Leases.Validity.{reach-IsValid, Step-IsValid}
use voxbench.Leases.Steps.{World, Step, Reach, here, next, with_jobs}

heartbeat-IsValid :
    (m : ℕ) (t t' : Table) (lease : RunJobLease) (worker : String) (s now : ℕ) {reply : Bool}
    → heartbeat lease worker s now t ≡ ok (t', reply)
    → IsValid m t
    → IsValid m t'
heartbeat-IsValid m t t' lease worker s now h v =
    let (j, k, _, e) = heartbeat-ok lease worker s now t h in
    subst (λ x. IsValid m x.0) e
      (update_one-IsValid m (is_active j k worker now) (extend_row (now + seconds s)) t
        (extend_row-KeepsKeys (now + seconds s))
        (λ row. extend_row-IsWell m (now + seconds s) j k now worker row) v)

-- An extended row of a held lease is not claimable before its expiry.
held-claimable :
    (m i k now later e : ℕ) (worker : String) (row : RunJob)
    → is_active i k worker now row ≡ true
    → later < e
    → is_claimable later m (extend_row e row) ≡ false
unfolding is_active is_claimable extend_row
held-claimable m i k now later e worker row a h = ground arith

-- On a valid table, after a heartbeat at time now that answers True, a claim at a time before now
-- plus the lease seconds that grants a lease grants it for another job.
pub heartbeat_protects :
    (m : ℕ) (t t' t'' : Table) (lease new : RunJobLease) (i k : ℕ) (worker other : String)
    (lease_seconds now other_seconds later token : ℕ) (locked : ℕ → Bool)
    → IsValid m t
    → Denotes lease i k
    → heartbeat lease worker lease_seconds now t ≡ ok (t', true)
    → claim m other other_seconds later token locked t' ≡ ok (t'', some new)
    → later < now + seconds lease_seconds
    → new.job_id ≢ some i
unfolding lease_of
heartbeat_protects m t t' t'' lease new i k worker other s now s' later token locked v den h c early
      q =
    elim (heartbeat-Exact m t t' lease i k worker now true v den s h) [
      | inr (refusing, _, _) ↦ absurd (cc)
      | inl (_, held) ↦
          let v' = heartbeat-IsValid m t t' lease worker s now h v in
          let (r, claimed) =
            claim_job-some m other (later + seconds s') later token locked t' v'
              (claim-ok m other s' later token locked t' c) in
          let same : r.id ≡ i = some_inj r.id i (sym (Claimed-job_id claimed) ∙ q) in
          let found : extend_row (now + seconds s) held.row ≡ r =
            some_inj _ r (sym held.after ∙ ap (λ n. job n t') (sym same) ∙ claimed.before) in
          let blocked =
            held-claimable m i k now later (now + seconds s) worker held.row held.passes early in
          cc (blocked, ap (is_claimable later m) found, Claimed-claimable claimed)
    ]

abbrev attempts_of : Option RunJob → ℕ
attempts_of none = 0
attempts_of (some row) = row.attempts

module _ {R : Type 0} {m : ℕ} {issued : List ℕ} where
  RowStep-attempts : {r s : RunJob} → RowStep R m issued r s → r.attempts ≤ s.attempts
  unfolding expire lease_row extend_row close_row fail_row finish_row
  RowStep-attempts (exhausts now e) = omega arith
  RowStep-attempts (leases w token e now c fresh) = omega arith
  RowStep-attempts (extends j t now w e a) = omega arith
  RowStep-attempts (closes j t now w a) = omega arith
  RowStep-attempts (fails j t now w al re av a) = omega arith
  RowStep-attempts (finishes j i t now w run a) = omega arith

  RowSteps-attempts : {r s : RunJob} → RowSteps R m issued r s → r.attempts ≤ s.attempts
  RowSteps-attempts stays = omega arith
  RowSteps-attempts (then_ p x) = omega (arith, RowSteps-attempts p, RowStep-attempts x)

  JobSteps-attempts :
      {o o' : Option RunJob} → JobSteps R m issued o o' → attempts_of o ≤ attempts_of o'
  JobSteps-attempts (moves p) = RowSteps-attempts p
  JobSteps-attempts missing = omega arith
  JobSteps-attempts (added a b c p) = omega arith

reach-attempts :
    {R : Type 0} (m : ℕ) {w u : World R} (i : ℕ)
    → IsValid m w.db.jobs
    → Reach m w u
    → attempts_of (job i w.db.jobs) ≤ attempts_of (job i u.db.jobs)
reach-attempts m i v here = omega arith
reach-attempts m i v (next r st) =
    omega (
      arith,
      reach-attempts m i v r,
      JobSteps-attempts (Step-JobSteps m i st (reach-IsValid m r v)),
    )

-- A granted claim, as a step of a history.
pub record Grant {R : Type 0} (m : ℕ) (w u : World R) (i : ℕ) (lease : RunJobLease) : Type 0 where
  pub worker : String
  pub lease_seconds : ℕ
  pub now : ℕ
  pub token : ℕ
  pub locked : ℕ → Bool
  pub jobs : Table
  pub fresh : Absent token w.issued
  pub claimed : claim m worker lease_seconds now token locked w.db.jobs ≡ ok (jobs, some lease)
  pub names : lease.job_id ≡ some i
  pub result : u ≡ record (with_jobs w jobs) { issued = token ∷ w.issued }

module _ {R : Type 0} (m : ℕ) {w u : World R} (i : ℕ) (lease : RunJobLease)
    (g : Grant m w u i lease) (v : IsValid m w.db.jobs) where
  module _ {expires_at : ℕ} (r : RunJob)
      (c : Claimed m g.worker expires_at g.now g.token g.locked w.db.jobs g.jobs lease r) where
    same_id : r.id ≡ i
    same_id = some_inj r.id i (sym (Claimed-job_id c) ∙ g.names)

    attempts_before : attempts_of (job i w.db.jobs) ≡ r.attempts
    attempts_before = ap attempts_of (ap (λ n. job n w.db.jobs) (sym same_id) ∙ c.before)

    attempts_after : attempts_of (job i u.db.jobs) ≡ r.attempts + 1
    unfolding lease_row
    attempts_after = ap attempts_of (
        ap (λ (x : World R). job i x.db.jobs) g.result
        ∙ ap (λ n. job n g.jobs) (sym same_id)
        ∙ c.after)

    within : r.attempts + 1 ≤ m
    unfolding is_claimable
    within = ground (arith, Claimed-claimable c)

    claimed_attempts :
        (lease.attempt ≡ attempts_of (job i w.db.jobs) + 1)
        × (attempts_of (job i u.db.jobs) ≡ lease.attempt)
        × (lease.attempt ≤ m)
        × (lease.final_attempt ≡ leb m lease.attempt)
    claimed_attempts =
        let (n, final) = Claimed-attempt c in
        (
          omega (arith, attempts_before),
          attempts_after ∙ sym n,
          omega (arith, within),
          final ∙ ap (leb m) (sym n),
        )

  grant_attempts :
      (lease.attempt ≡ attempts_of (job i w.db.jobs) + 1)
      × (attempts_of (job i u.db.jobs) ≡ lease.attempt)
      × (lease.attempt ≤ m)
      × (lease.final_attempt ≡ leb m lease.attempt)
  grant_attempts =
      let (r, c) =
        claim_job-some m g.worker (g.now + seconds g.lease_seconds) g.now g.token g.locked w.db.jobs
          v (claim-ok m g.worker g.lease_seconds g.now g.token g.locked w.db.jobs g.claimed) in
      claimed_attempts r c

  grant-IsValid : IsValid m u.db.jobs
  grant-IsValid =
      subst (λ (x : World R). IsValid m x.db.jobs) (sym g.result)
        (Step-IsValid m {w = w}
          (Step.claims g.worker g.lease_seconds g.now g.token g.locked g.jobs (some lease) g.fresh
            g.claimed)
          v)

-- From a valid table, of two leases of one job, the second granted after the first, the second has
-- the larger attempt number, within the limit, and it is marked final exactly at the limit.
pub lease_attempts_rise :
    {R : Type 0} (m : ℕ) {w w' u u' : World R} (i : ℕ) (first second : RunJobLease)
    → IsValid m w.db.jobs
    → Grant m w w' i first
    → Reach m w' u
    → Grant m u u' i second
    → (first.attempt < second.attempt)
      × (second.attempt ≤ m)
      × (second.final_attempt ≡ leb m second.attempt)
lease_attempts_rise m i first second v g r g' =
    let v' = grant-IsValid m i first g v in
    let (_, a, _, _) = grant_attempts m i first g v in
    let (b, _, c, d) = grant_attempts m i second g' (reach-IsValid m r v') in
    let rise = reach-attempts m i v' r in (omega arith, c, d)
