-- ===== src/JobQueue/Enqueue.antt =====
-- One job for each run: enqueueing a run again finds the job that it has.
use voxbench.Base.{
  ℕ, ◌≡◌, refl, sym, ap, ◌∙◌, Bool, true, Option, none, some, List, [], ◌∷◌, ◌++◌, arith, inl, inr,
  Bool-cases, Option-cases, first_where, ==_iff,
}
use voxbench.JobQueue.Row.{RunJob, Table, UuidText, ok}
use voxbench.JobQueue.Operations.{has_run, new_job, insert_job, enqueue}
use voxbench.JobQueue.Kept.{insert_job-some}

-- The job of a run.
abbrev pub job_of_run : ℕ → Table → Option RunJob
job_of_run run = first_where (has_run run)

first_where-append {ℓ} :
    {A : Type ℓ} (p : A → Bool) (xs : List A) (x : A)
    → first_where p xs ≡ none
    → p x ≡ true
    → first_where p (xs ++ x ∷ []) ≡ some x
unfolding first_where
first_where-append p [] x n y = rw y
first_where-append p (z ∷ xs) x n y = elim (Bool-cases (p z)) [
  | inl on ↦ absurd (ground arith)
  | inr off ↦ rw off (first_where-append p xs x (ground arith) y)
]

-- An enqueue of a run that returns answers with the id of the job that the table then has for the
-- run, if no other transaction came between its reading and its writing.
pub enqueue_answers :
    (run now new_id created_at : ℕ) (run_exists : Bool) (t t' : Table) (reply : UuidText)
    → enqueue (some run) now new_id created_at run_exists t t ≡ ok (t', reply)
    → (row : RunJob) × (job_of_run run t' ≡ some row) × (reply ≡ some row.id)
unfolding enqueue
enqueue_answers run now new_id created_at run_exists t t' reply h =
    elim (Option-cases (first_where (has_run run) t)) [
      | inr (row, e) ↦
          let same : t ≡ t' = ground arith in
          (row, ap (job_of_run run) (sym same) ∙ e, ground arith)
      | inl e ↦ elim (Option-cases (insert_job run_exists new t)) [
        | inr (u, f) ↦
            let same : u ≡ t' = ground arith in
            let (added, _) = insert_job-some 0 run_exists new t u f in
            (
              new,
              ap (job_of_run run) (sym (added ∙ same))
                  ∙ first_where-append (has_run run) t new e
                      (unfold has_run new_job in (==_iff run run).1 refl),
              ground arith,
            )
        | inl f ↦ absurd (ground arith)
      ]
    ]
  where
    new : RunJob
    new = new_job new_id run now created_at

-- Enqueueing a run that has a job answers with that job and changes nothing.
enqueue_found :
    (run now new_id created_at : ℕ) (run_exists : Bool) (t : Table) (row : RunJob)
    → job_of_run run t ≡ some row
    → enqueue (some run) now new_id created_at run_exists t t ≡ ok (t, some row.id)
unfolding enqueue
enqueue_found run now new_id created_at run_exists t row e = ground arith

-- A run that is enqueued again, at any time and with any new id, keeps its one job: the answer is
-- the same and the table does not change.
pub enqueue_twice :
    (run now new_id created_at later other_id created_later : ℕ) (run_exists run_exists' : Bool)
    (t t' : Table) (reply : UuidText)
    → enqueue (some run) now new_id created_at run_exists t t ≡ ok (t', reply)
    → enqueue (some run) later other_id created_later run_exists' t' t' ≡ ok (t', reply)
enqueue_twice run now new_id created_at later other_id created_later ex ex' t t' reply h =
    let (row, e, q) = enqueue_answers run now new_id created_at ex t t' reply h in
    enqueue_found run later other_id created_later ex' t' row e ∙ ap (λ u. ok (t', u)) (sym q)
