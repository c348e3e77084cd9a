-- ===== src/JobQueue/Kept.antt =====
-- Every operation keeps the invariant of the job table.
use voxbench.Base.{
  ℕ, ◌≡◌, ◌≢◌, ◌⊎◌, refl, sym, subst, ◌∙◌, String, Bool, true, false, ◌&&◌, none, some, List, [],
  ◌∷◌, ◌++◌, if◌then◌else◌, All-append, All-map, All-weaken, arith, Memᴰ, first_where, inl, inr,
  first_where-mem, first_where_misses, earliest-mem, Option-cases, All-mem, ==_iff,
}
use mathlib.Core.List.{map-append}
use voxbench.JobQueue.Row.{RunJob, Table, UuidText, ok}
use voxbench.JobQueue.Statements.{
  expire, expire_exhausted_jobs, is_claimable, comes_before, claim_statement,
}
use voxbench.JobQueue.Operations.{
  has_run, new_job, insert_job, enqueue, lease_row, claim_job, fail_job, extend_row, close_row,
  fail_row, is_active,
}
use voxbench.JobQueue.Rows.{Absent, Distinct, ids, run_ids, KeepsKeys}
use voxbench.JobQueue.Outcomes.{update_one}
use voxbench.JobQueue.Invariant.{IsWell, IsValid, update_where-IsValid, write_row-IsValid}

-- The changes of a row leave its keys alone.
pub expire-KeepsKeys : KeepsKeys expire
unfolding expire
expire-KeepsKeys = record { same_id = λ r. refl; same_run = λ r. refl }

pub lease_row-KeepsKeys : (w : String) (k e : ℕ) → KeepsKeys (lease_row w k e)
unfolding lease_row
lease_row-KeepsKeys w k e = record { same_id = λ r. refl; same_run = λ r. refl }

pub extend_row-KeepsKeys : (e : ℕ) → KeepsKeys (extend_row e)
unfolding extend_row
extend_row-KeepsKeys e = record { same_id = λ r. refl; same_run = λ r. refl }

pub close_row-KeepsKeys : KeepsKeys close_row
unfolding close_row
close_row-KeepsKeys = record { same_id = λ r. refl; same_run = λ r. refl }

pub fail_row-KeepsKeys : (m : ℕ) (a : String) (b : Bool) (n : ℕ) → KeepsKeys (fail_row m a b n)
unfolding fail_row
fail_row-KeepsKeys m a b n = record { same_id = λ r. refl; same_run = λ r. refl }

module _ (max_attempts : ℕ) where
  expire-IsWell : (row : RunJob) → IsWell max_attempts row → IsWell max_attempts (expire row)
  unfolding expire
  expire-IsWell row w = ground arith

  pub lease_row-IsWell :
      (now : ℕ) (w : String) (k e : ℕ) (row : RunJob)
      → is_claimable now max_attempts row ≡ true
      → IsWell max_attempts (lease_row w k e row)
  unfolding is_claimable lease_row
  lease_row-IsWell now w k e row h = ground arith

  pub extend_row-IsWell :
      (e job_id token now : ℕ) (w : String) (row : RunJob)
      → is_active job_id token w now row ≡ true
      → IsWell max_attempts row
      → IsWell max_attempts (extend_row e row)
  unfolding is_active extend_row
  extend_row-IsWell e job_id token now w row a h = ground arith

  pub close_row-IsWell :
      (row : RunJob) → IsWell max_attempts row → IsWell max_attempts (close_row row)
  unfolding close_row
  close_row-IsWell row h = ground arith

  pub fail_row-IsWell :
      (a : String) (b : Bool) (n : ℕ) (row : RunJob)
      → IsWell max_attempts row
      → IsWell max_attempts (fail_row max_attempts a b n row)
  unfolding fail_row
  fail_row-IsWell a b n row h = ground arith

  pub expire_exhausted_jobs-IsValid :
      (now : ℕ) (t : Table)
      → IsValid max_attempts t
      → IsValid max_attempts (expire_exhausted_jobs now max_attempts t)
  unfolding expire_exhausted_jobs
  expire_exhausted_jobs-IsValid now t v =
      update_where-IsValid _ expire t expire-KeepsKeys (λ row _. expire-IsWell row) v

  -- A row that the claim statement selects is in the table, claimable and not locked.
  pub claim_statement-mem :
      (now : ℕ) (locked : ℕ → Bool) (t : Table) (row : RunJob)
      → claim_statement now max_attempts locked t ≡ some row
      → Memᴰ row t × (is_claimable now max_attempts row ≡ true) × (locked row.id ≡ false)
  unfolding claim_statement
  claim_statement-mem now locked t row e =
      let (m, q) =
        earliest-mem comes_before
          (λ r. is_claimable now max_attempts r && (if locked r.id then false else true)) t row e in
      (m, ground arith, ground arith)

  pub claim_job-IsValid :
      (w : String) (expires_at now token : ℕ) (locked : ℕ → Bool) (t : Table)
      → IsValid max_attempts t
      → IsValid max_attempts (claim_job max_attempts w expires_at now token locked t).0
  unfolding claim_job
  claim_job-IsValid w expires_at now token locked t v =
      let swept = expire_exhausted_jobs now max_attempts t in
      let vs = expire_exhausted_jobs-IsValid now t v in
      elim (Option-cases (claim_statement now max_attempts locked swept)) [
        | inl e ↦ rw (e, claim_job) vs
        | inr (row, e) ↦
            let (m, c, _) = claim_statement-mem now locked swept row e in
            rw (e, claim_job)
              (write_row-IsValid (lease_row w token expires_at) swept row
                (lease_row-KeepsKeys w token expires_at) m
                (lease_row-IsWell now w token expires_at row c) vs)
      ]

  pub update_one-IsValid :
      (p : RunJob → Bool) (change : RunJob → RunJob) (t : Table)
      → KeepsKeys change
      → ((row : RunJob) → p row ≡ true → IsWell max_attempts row → IsWell max_attempts (change row))
      → IsValid max_attempts t
      → IsValid max_attempts (update_one p change t).0
  update_one-IsValid = update_where-IsValid

  pub fail_job-IsValid :
      (active : RunJob → Bool) (a : String) (retryable : Bool) (available_at : ℕ) (t : Table)
      → IsValid max_attempts t
      → IsValid max_attempts (fail_job max_attempts active a retryable available_at t).0
  unfolding fail_job
  fail_job-IsValid active a retryable available_at t v =
      elim (Option-cases (first_where active t)) [
        | inl e ↦ rw (e, fail_job) v
        | inr (row, e) ↦
            let (m, _) = first_where-mem active t row e in
            rw (e, fail_job)
              (write_row-IsValid (fail_row max_attempts a retryable available_at) t row
                (fail_row-KeepsKeys max_attempts a retryable available_at) m
                (fail_row-IsWell a retryable available_at row (All-mem _ t v.rows m)) v)
      ]

  -- A table of distinct columns, and one more row.
  Distinct-append : (xs : List ℕ) (n : ℕ) → Distinct xs → Absent n xs → Distinct (xs ++ n ∷ [])
  Distinct-append [] n d h = (tt, tt)
  Distinct-append (x ∷ xs) n d h = (
    All-append (λ y. y ≢ x) xs (n ∷ []) d.0 ((λ e. h.0 (sym e)), tt),
    Distinct-append xs n d.1 h.1,
  )

  -- A job is inserted at the end, and only if its run has none yet.
  pub insert_job-some :
      (run_exists : Bool) (new : RunJob) (t t' : Table)
      → insert_job run_exists new t ≡ some t'
      → (t ++ new ∷ [] ≡ t') × Absent new.run_id (run_ids t)
  unfolding insert_job
  insert_job-some run_exists new t t' e = elim (Option-cases (first_where (has_run new.run_id) t)) [
    | inr (row, f) ↦ absurd (ground arith)
    | inl f ↦ (
      ground arith,
      All-map (λ x. x ≢ new.run_id) (λ row. row.run_id) t
          (All-weaken _ _ t (λ row h q. cc (h, (==_iff row.run_id new.run_id).1 q))
            (first_where_misses (has_run new.run_id) t f)),
    )
  ]

  pub insert_job-IsValid :
      (run_exists : Bool) (new : RunJob) (t t' : Table)
      → insert_job run_exists new t ≡ some t'
      → IsWell max_attempts new
      → Absent new.id (ids t)
      → IsValid max_attempts t
      → IsValid max_attempts t'
  insert_job-IsValid run_exists new t t' e w fresh v =
      let (added, no_run) = insert_job-some run_exists new t t' e in
      subst (IsValid max_attempts) added (record {
        rows = All-append _ t (new ∷ []) v.rows (w, tt);
        own_ids =
            subst Distinct (sym (map-append (λ (row : RunJob). row.id) t (new ∷ [])))
              (Distinct-append _ _ v.own_ids fresh);
        own_runs =
            subst Distinct (sym (map-append (λ (row : RunJob). row.run_id) t (new ∷ [])))
              (Distinct-append _ _ v.own_runs no_run);
      })

  pub new_job-IsWell :
      (id run now created_at : ℕ) → IsWell max_attempts (new_job id run now created_at)
  unfolding new_job
  new_job-IsWell id run now created_at = ground arith

  -- A job that is not found is inserted, or the table stays.
  pub enqueue-cases :
      (run now new_id created_at : ℕ) (run_exists : Bool) (seen t : Table) {t' : Table}
      {reply : UuidText}
      → enqueue (some run) now new_id created_at run_exists seen t ≡ ok (t', reply)
      → (t ≡ t') ⊎ (insert_job run_exists (new_job new_id run now created_at) t ≡ some t')
  unfolding enqueue
  enqueue-cases run now new_id created_at run_exists seen t h =
      elim (Option-cases (first_where (has_run run) seen)) [
        | inr (row, e) ↦ inl (ground arith)
        | inl e ↦
            elim (Option-cases (insert_job run_exists (new_job new_id run now created_at) t)) [
              | inr (u, f) ↦ inr (f ∙ ground arith)
              | inl f ↦ elim (Option-cases (first_where (has_run run) t)) [
                | inr (row, g) ↦ inl (ground arith)
                | inl g ↦ absurd (ground arith)
              ]
            ]
      ]

  pub enqueue-IsValid :
      (run_id : UuidText) (now new_id created_at : ℕ) (run_exists : Bool) (seen t t' : Table)
      (reply : UuidText)
      → enqueue run_id now new_id created_at run_exists seen t ≡ ok (t', reply)
      → Absent new_id (ids t)
      → IsValid max_attempts t
      → IsValid max_attempts t'
  unfolding new_job
  enqueue-IsValid none now new_id created_at run_exists seen t t' reply h fresh v =
      unfold enqueue in cc
  enqueue-IsValid (some run) now new_id created_at run_exists seen t t' reply h fresh v =
      elim (enqueue-cases run now new_id created_at run_exists seen t h) [
        | inl same ↦ subst (IsValid max_attempts) same v
        | inr e ↦
            insert_job-IsValid run_exists (new_job new_id run now created_at) t t' e
              (new_job-IsWell new_id run now created_at) fresh v
      ]
