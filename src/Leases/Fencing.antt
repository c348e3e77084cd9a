-- ===== src/Leases/Fencing.antt =====
-- A lease that was superseded is refused for ever.
pub mod Tokens
pub mod Refusal
use voxbench.Base.{
  ℕ, ◌+◌, ◌≡◌, ◌≢◌, refl, sym, ap, subst, subst₂, ◌∙◌, String, Bool, true, false, ◌&&◌, Option,
  none, some, List, [], ◌∷◌, ◌==◌, ==_iff, All, All-of_mem, All-mem, Memᴰ, arith, map, count_if,
  if◌then◌else◌, first_where, some_inj, inl, inr, Bool-cases, column_eq,
}
use voxbench.JobQueue.Row.{RunJob, Table, RunJobLease, Result, ok, err, seconds}
use voxbench.JobQueue.Statements.{update_where, expire, is_claimable}
use voxbench.JobQueue.Operations.{
  lease_row, lease_of, is_active, extend_row, close_row, fail_row, fail_job, heartbeat, complete,
  fail, claim,
}
use voxbench.JobQueue.Outcomes.{Denotes, update_one, heartbeat-ok, complete-ok, fail-ok, claim-ok}
use voxbench.JobQueue.Invariant.{IsValid}
use voxbench.JobQueue.Rows.{job, ids, job-mem, Absent, Distinct}
use voxbench.JobQueue.Claiming.{Claimed, claim_job-some}
use voxbench.Repository.{
  StoredRun, Database, may_commit, finish_row, commit_job, commit_leased_result,
}
use voxbench.Repository.Outcomes.{Matches, commit_leased_result-cases}
use voxbench.Leases.Rows.{
  RowStep, exhausts, leases, extends, closes, fails, finishes, RowSteps, stays, then_, JobSteps,
  moves, missing, added,
}
use voxbench.Leases.Moves.{Step-JobSteps}
use voxbench.Leases.Validity.{reach-IsValid, Step-IsValid}
use voxbench.Leases.Steps.{World, Step, Reach, here, next, with_jobs}
use voxbench.Leases.Fencing.Tokens.{Lost, reach-Lost}
use voxbench.Leases.Fencing.Refusal.{Refused, Lost-Refused}

-- Once the job of a lease has another token, every later heartbeat, complete, fail and commit with
-- that lease is refused and changes nothing, whatever transactions run in between.
pub stale_lease-Refused :
    {R : Type 0} (m : ℕ) {w u : World R} (lease : RunJobLease) (i k : ℕ)
    → IsValid m w.db.jobs
    → Denotes lease i k
    → Memᴰ k w.issued
    → Lost k (job i w.db.jobs)
    → Reach m w u
    → Refused m lease u
stale_lease-Refused m lease i k v den drawn lost r =
    Lost-Refused m lease i k (reach-IsValid m r v) den (reach-Lost i k v drawn lost r)

-- On a valid table, once a claim with a new token leases job i, a lease of that job under an older
-- drawn token is refused by every later heartbeat, complete, fail and commit: each raises or
-- answers False and changes nothing, whatever transactions run in between.
pub superseded_lease-Refused :
    {R : Type 0} (m : ℕ) {w u : World R} (old new : RunJobLease) (i k : ℕ) (worker : String)
    (lease_seconds now token : ℕ) (locked : ℕ → Bool) (t' : Table)
    → IsValid m w.db.jobs
    → Denotes old i k
    → Memᴰ k w.issued
    → Absent token w.issued
    → claim m worker lease_seconds now token locked w.db.jobs ≡ ok (t', some new)
    → new.job_id ≡ some i
    → Reach m (record (with_jobs w t') { issued = token ∷ w.issued }) u
    → Refused m old u
unfolding lease_row lease_of
superseded_lease-Refused {R} m {w = w} old new i k worker s now token locked t' v den drawn fresh h
      names r =
    stale_lease-Refused m old i k
      (Step-IsValid m {w = w} (Step.claims worker s now token locked t' (some new) fresh h) v) den
      (Memᴰ.tail drawn) lost r
  where
    lost : Lost k (job i t')
    lost =
        let (row, c) =
          claim_job-some m worker (now + seconds s) now token locked w.db.jobs v
            (claim-ok m worker s now token locked w.db.jobs h) in
        let same : row.id ≡ i = some_inj row.id i (sym (ap (λ l. l.job_id) c.granted) ∙ names) in
        subst (Lost k) (sym c.after ∙ ap (λ n. job n t') same)
          (λ q. All-mem (λ x. x ≢ token) w.issued fresh drawn (sym (some_inj token k q)))
