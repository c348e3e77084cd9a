-- ===== src/JobQueue/Claiming.antt =====
-- What a claim takes: the first claimable row that nobody has locked, and none only if there is none.
use voxbench.Base.{
  ℕ, ◌+◌, ◌≡◌, refl, sym, ap, subst, ◌∙◌, String, Bool, true, false, ◌&&◌, Option, none, some, ◌==◌,
  ==_iff, if◌then◌else◌, All, All-weaken, All-unmap, mem-map, Memᴰ, inl, inr, arith, Bool-cases,
  some_inj, leb, ◌⊎◌, earliest_least, earliest_misses, map,
}
use mathlib.Core.Option
use voxbench.JobQueue.Row.{ok, seconds, RunJob, Table, RunJobLease}
use voxbench.JobQueue.Statements.{
  is_exhausted, expire, expire_exhausted_jobs, is_claimable, comes_before, claim_statement,
  write_row,
}
use voxbench.JobQueue.Order.{comes_before-asym, comes_before-cotrans, DueBy, comes_before-DueBy}
use voxbench.JobQueue.Operations.{claim, lease_row, lease_of, grant, claim_job}
use voxbench.JobQueue.Rows.{job, at_id, job-map, job-mem, write_row-eq, KeepsKeys-if}
use voxbench.JobQueue.Invariant.{IsValid}
use voxbench.JobQueue.Outcomes.{claim-ok}
use voxbench.JobQueue.Kept.{claim_statement-mem, expire_exhausted_jobs-IsValid, lease_row-KeepsKeys}

abbrev sweep : ℕ → ℕ → RunJob → RunJob
sweep now m row = if is_exhausted now m row then expire row else row

-- The sweep leaves claimable rows alone, and makes none claimable.
claimable-sweep : (now m : ℕ) (row : RunJob) → is_claimable now m row ≡ true → sweep now m row ≡ row
claimable-sweep now m row h =
    let off : is_exhausted now m row ≡ false = unfold is_exhausted is_claimable in ground arith in
    rw off

sweep-claimable :
    (now m : ℕ) (row : RunJob) → is_claimable now m (sweep now m row) ≡ true → sweep now m row ≡ row
sweep-claimable now m row h = elim (Bool-cases (is_exhausted now m row)) [
  | inl on ↦ absurd (unfold is_claimable expire in ground arith)
  | inr off ↦ rw off
]

-- A row that the claim of `now` may take.
abbrev pub is_free : ℕ → ℕ → (ℕ → Bool) → RunJob → Bool
is_free now m locked row = is_claimable now m row && (if locked row.id then false else true)

-- What a granted claim did, from the table before to the table after.
pub record Claimed (m : ℕ) (worker : String) (expires_at now token : ℕ) (locked : ℕ → Bool)
    (t t' : Table) (lease : RunJobLease) (row : RunJob) : Type 0 where
  pub before : job row.id t ≡ some row
  pub free : is_free now m locked row ≡ true
  pub least : All (λ other. (is_free now m locked other ≡ false) ⊎ DueBy row other) t
  pub after : job row.id t' ≡ some (lease_row worker token expires_at row)
  pub granted : lease ≡ lease_of m token expires_at (lease_row worker token expires_at row)

module _ (m : ℕ) (worker : String) (expires_at now token : ℕ) (locked : ℕ → Bool) (t : Table) where
  grant-none :
      (o : Option RunJob) (u : Table) {t' : Table}
      → grant m worker expires_at token u o ≡ (t', none)
      → o ≡ none
  unfolding grant
  grant-none none u h = refl
  grant-none (some row) u h = absurd (cc (ap (λ p. p.1) h))

  pub grant-some :
      (o : Option RunJob) (u : Table) {t' : Table} {lease : RunJobLease}
      → grant m worker expires_at token u o ≡ (t', some lease)
      → (row : RunJob) × (o ≡ some row)
        × (t' ≡ write_row (lease_row worker token expires_at row) u)
        × (lease ≡ lease_of m token expires_at (lease_row worker token expires_at row))
  unfolding grant
  grant-some none u h = absurd (cc (ap (λ p. p.1) h))
  grant-some (some row) u h =
      (row, refl, sym (ap (λ p. p.0) h), sym (some_inj _ _ (ap (λ p. p.1) h)))

  swept_free :
      (row : RunJob)
      → is_free now m locked (sweep now m row) ≡ false
      → is_free now m locked row ≡ false
  swept_free row n = elim (Bool-cases (is_claimable now m row)) [
    | inl y ↦ ap (is_free now m locked) (sym (claimable-sweep now m row y)) ∙ n
    | inr off ↦ rw off
  ]

  -- Without a lease, every claimable row is locked by another transaction.
  pub claim_job-none :
      {t' : Table}
      → claim_job m worker expires_at now token locked t ≡ (t', none)
      → All (λ row. is_free now m locked row ≡ false) t
  unfolding claim_job
  claim_job-none h = All-weaken _ _ t swept_free (
      All-unmap (λ row. is_free now m locked row ≡ false) (sweep now m) t
        (earliest_misses comes_before (is_free now m locked) (map (sweep now m) t)
          (grant-none _ _ h)))

  -- The rows of `t` after the sweep.
  abbrev swept : Table
  swept = expire_exhausted_jobs now m t

  module _ (v : IsValid m t) (row : RunJob)
      (e : claim_statement now m locked swept ≡ some row) where
    selected-mem : Memᴰ row t
    unfolding expire_exhausted_jobs
    selected-mem =
        let (mem, c, _) = claim_statement-mem m now locked swept row e in
        let (old, mem', same) = mem-map (sweep now m) t mem in
        let kept = sweep-claimable now m old (subst (λ x. is_claimable now m x ≡ true) same c) in
        subst (λ x. Memᴰ x t) (sym (same ∙ kept)) mem'

    selected_least :
        All (λ other. is_free now m locked other ≡ true → comes_before other row ≡ false) t
    unfolding expire_exhausted_jobs claim_statement
    selected_least =
        All-weaken _ _ t
          (λ other h free.
            let kept = claimable-sweep now m other (ground arith) in
            subst (λ x. comes_before x row ≡ false) kept
              (h (subst (λ x. is_free now m locked x ≡ true) (sym kept) free)))
          (All-unmap (λ other. is_free now m locked other ≡ true → comes_before other row ≡ false)
            (sweep now m) t
            (earliest_least comes_before (is_free now m locked) comes_before-asym
              comes_before-cotrans (map (sweep now m) t) row e))

    selected_after :
        job row.id (write_row (lease_row worker token expires_at row) swept)
        ≡ some (lease_row worker token expires_at row)
    selected_after =
        let change = lease_row worker token expires_at in
        let keys = lease_row-KeepsKeys worker token expires_at in
        let vs = expire_exhausted_jobs-IsValid m now t v in
        let (mem, _, _) = claim_statement-mem m now locked swept row e in
        ap (job row.id) (write_row-eq change swept row keys vs.own_ids mem)
        ∙ job-map row.id (at_id row.id change) swept
            (KeepsKeys-if (λ r. r.id == row.id) change keys)
        ∙ ap (Option.map (at_id row.id change)) (job-mem swept row vs.own_ids mem)
        ∙ rw ((==_iff row.id row.id).1 refl)

    selected-Claimed :
        {t' : Table} {lease : RunJobLease}
        → t' ≡ write_row (lease_row worker token expires_at row) swept
        → lease ≡ lease_of m token expires_at (lease_row worker token expires_at row)
        → Claimed m worker expires_at now token locked t t' lease row
    selected-Claimed e' e'' = record {
      before = job-mem t row v.own_ids selected-mem;
      free = let (_, c, u) = claim_statement-mem m now locked swept row e in rw (c, u);
      least =
          All-weaken _ _ t
            (λ other h. elim (Bool-cases (is_free now m locked other)) [
              | inl y ↦ inr (comes_before-DueBy row other (h y))
              | inr n ↦ inl n
            ])
            selected_least;
      after = ap (job row.id) e' ∙ selected_after;
      granted = e'';
    }

  -- A lease is for the least free row.
  pub claim_job-some :
      {t' : Table} {lease : RunJobLease}
      → IsValid m t
      → claim_job m worker expires_at now token locked t ≡ (t', some lease)
      → (row : RunJob) × Claimed m worker expires_at now token locked t t' lease row
  unfolding claim_job
  claim_job-some v h =
      let (row, e, e', e'') = grant-some _ _ h in (row, selected-Claimed v row e e' e'')

module _ {m : ℕ} {worker : String} {expires_at now token : ℕ} {locked : ℕ → Bool} {t t' : Table}
    {lease : RunJobLease} {row : RunJob}
    (c : Claimed m worker expires_at now token locked t t' lease row) where
  pub Claimed-job_id : lease.job_id ≡ some row.id
  unfolding lease_of lease_row
  Claimed-job_id = ap (λ l. l.job_id) c.granted

  pub Claimed-claimable : is_claimable now m row ≡ true
  Claimed-claimable = let f = c.free in ground arith

  -- The lease is the next attempt, and the last one exactly when the limit is reached.
  pub Claimed-attempt :
      (lease.attempt ≡ row.attempts + 1) × (lease.final_attempt ≡ leb m (row.attempts + 1))
  unfolding lease_of lease_row
  Claimed-attempt = (ap (λ l. l.attempt) c.granted, ap (λ l. l.final_attempt) c.granted)

-- A claim on a valid table that grants a lease grants the next attempt of the job that comes first
-- among those that are claimable at that time and not locked: by availability, age and id.
pub claim_takes_first :
    (m : ℕ) (worker : String) (lease_seconds now token : ℕ) (locked : ℕ → Bool) (t t' : Table)
    (lease : RunJobLease)
    → IsValid m t
    → claim m worker lease_seconds now token locked t ≡ ok (t', some lease)
    → (row : RunJob) × Claimed m worker
        (now + seconds lease_seconds)
        now
        token
        locked
        t
        t'
        lease
        row
claim_takes_first m worker s now token locked t t' lease v h =
    claim_job-some m worker (now + seconds s) now token locked t v
      (claim-ok m worker s now token locked t h)

-- A claim that grants nothing has seen no job that is claimable at that time and not locked.
pub claim_finds_none :
    (m : ℕ) (worker : String) (lease_seconds now token : ℕ) (locked : ℕ → Bool) (t t' : Table)
    → claim m worker lease_seconds now token locked t ≡ ok (t', none)
    → All (λ row. is_free now m locked row ≡ false) t
claim_finds_none m worker s now token locked t t' h =
    claim_job-none m worker (now + seconds s) now token locked t
      (claim-ok m worker s now token locked t h)
