-- ===== src/Repository/Outcomes.antt =====
-- What the two transactions of the run repository come to, case by case.
use voxbench.Base.{
  ℕ, ◌≡◌, ◌⊎◌, refl, sym, ap, ◌∙◌, inl, inr, String, Bool, true, false, not, ◌||◌, ◌&&◌, some, ◌==◌,
  ==_iff, Bool-cases, Option-cases, first_where, arith,
}
use voxbench.JobQueue.Row.{
  Table, UuidText, RunJobLease, ok, guard, >>=-eq-ok, ok-injective, parse_uuid, run_id_invalid,
  queued_run_not_running, leased_run_result_not_terminal,
}
use voxbench.JobQueue.Operations.{has_run, new_job, insert_job}
use voxbench.JobQueue.Outcomes.{Denotes}
use voxbench.Repository.{
  StoredRun, Database, is_running, is_none, is_completed, is_failed, save_queued_job,
  save_queued_run, commit_job, commit_texts, commit_leased_result,
}

module _ {R : Type 0} where
  save_queued_job-cases :
      (run : StoredRun R) (i now new_id created_at : ℕ) (seen : Table) (db : Database R)
      {db' : Database R} {reply : UuidText}
      → save_queued_job run i now new_id created_at seen db ≡ ok (db', reply)
      → (db.jobs ≡ db'.jobs)
        ⊎ (insert_job true (new_job new_id i now created_at) db.jobs ≡ some db'.jobs)
  unfolding save_queued_job
  save_queued_job-cases run i now new_id created_at seen db h =
      elim (Option-cases (first_where (has_run i) seen)) [
        | inr (row, e) ↦ inl (ground arith)
        | inl e ↦ elim (Option-cases (insert_job true (new_job new_id i now created_at) db.jobs)) [
          | inr (u, f) ↦ inr (f ∙ ground arith)
          | inl f ↦ absurd (ground arith)
        ]
      ]

  -- The jobs stay, or the run's job is inserted.
  pub save_queued_run-cases :
      (run : StoredRun R) (now new_id created_at : ℕ) (seen : Table) (db : Database R)
      {db' : Database R} {reply : UuidText}
      → save_queued_run run now new_id created_at seen db ≡ ok (db', reply)
      → (db.jobs ≡ db'.jobs)
        ⊎ ((i : ℕ) × (insert_job true (new_job new_id i now created_at) db.jobs ≡ some db'.jobs))
  unfolding save_queued_run
  save_queued_run-cases run now new_id created_at seen db h =
      let (_, _, h₁) =
        >>=-eq-ok (guard (is_running run.status && is_none run.ended_at) queued_run_not_running) _
          h in
      let (i, _, h₂) = >>=-eq-ok (parse_uuid run.run_id run_id_invalid) _ h₁ in
      elim (save_queued_job-cases run i now new_id created_at seen db h₂) [
        | inl e ↦ inl e
        | inr e ↦ inr (i, e)
      ]

  -- The run's and the lease's texts denote one run, one job and one token.
  pub record Matches (run : StoredRun R) (lease : RunJobLease) (run_id job_id token : ℕ)
      : Type 0 where
    pub run_named : run.run_id ≡ some run_id
    pub lease_named : lease.run_id ≡ some run_id
    pub denotes : Denotes lease job_id token

  commit_texts-cases :
      (run : StoredRun R) (w : String) (now : ℕ) (db : Database R) (a b c d : UuidText)
      → (commit_texts a b c d run w now db ≡ (db, false))
        ⊎ ((i j k : ℕ) × (a ≡ some i)
            × (b ≡ some i)
            × (c ≡ some j)
            × (d ≡ some k)
            × (commit_texts a b c d run w now db ≡ commit_job j i k run w now db))
  unfolding commit_texts
  commit_texts-cases run w now db (some i) (some l) (some j) (some k) = elim (Bool-cases (l == i)) [
    | inl e ↦ inr (i, j, k, refl, ap some ((==_iff l i).0 e), refl, refl, rw (e, commit_texts))
    | inr e ↦ inl (rw (e, commit_texts))
  ]
  commit_texts-cases run w now db _ _ _ _ = inl refl

  -- A commit that returns leaves the database alone and says False, or it is the transaction.
  pub commit_leased_result-cases :
      (run : StoredRun R) (lease : RunJobLease) (w : String) (now : ℕ) (db : Database R)
      {r : Database R × Bool}
      → commit_leased_result run lease w now db ≡ ok r
      → (r ≡ (db, false))
        ⊎ ((i j k : ℕ) × Matches run lease i j k × (r ≡ commit_job j i k run w now db))
  unfolding commit_leased_result
  commit_leased_result-cases run lease w now db h =
      let (_, _, h₁) =
        >>=-eq-ok
          (guard ((is_completed run.status || is_failed run.status) && not (is_none run.ended_at))
            leased_run_result_not_terminal)
          _ h in
      let same = ok-injective _ _ h₁ in
      elim (commit_texts-cases run w now db run.run_id lease.run_id lease.job_id lease.token) [
        | inl e ↦ inl (sym same ∙ e)
        | inr (i, j, k, a, b, c, d, e) ↦ inr (
          i,
          j,
          k,
          record {
            run_named = a;
            lease_named = b;
            denotes = record { names_job = c; names_token = d };
          },
          sym same ∙ e,
        )
      ]
