-- ===== src/Repository/Commit.antt =====
-- The fenced commit of a run's result: all of it is written under a live lease, or nothing is.
use voxbench.Base.{
  ℕ, both_of, ◌≡◌, ◌≢◌, ◌⊎◌, refl, sym, ap, subst, ◌∙◌, String, Bool, true, false, some, List, [],
  ◌∷◌, ◌==◌, ==_iff, arith, map, inl, inr, All, All-weaken, Bool-cases, Option-cases, some_inj, not,
  ◌||◌, ◌&&◌, if◌then◌else◌,
}
use voxbench.JobQueue.Row.{
  Error, RunJob, UuidText, RunJobLease, ok, ok-injective, >>=-eq-ok, guard,
  leased_run_result_not_terminal,
}
use voxbench.JobQueue.Rows.{
  ids, Distinct, job, at_id, KeepsKeys, mem_of_job, write_row-eq, job-eq_id, job-map, KeepsKeys-if,
  map-at_id,
}
use voxbench.JobQueue.Updates.{first_where-none, All-fail, first_where_hit}
use voxbench.JobQueue.Invariant.{IsValid}
use voxbench.Repository.{
  is_completed, is_failed, is_none, StoredRun, Database, commit_texts, find_run, put_run,
  may_commit, finish_row, commit_job, commit_leased_result,
}
use voxbench.Repository.Outcomes.{Matches}
use voxbench.Repository.Finished.{Finished, finish_row-Finished}
use voxbench.Leases.Held.{Holds, may_commit_iff}

guard-passed : (b : Bool) (e : Error) (u : Unit) → guard b e ≡ ok u → b ≡ true
guard-passed true e u h = refl
guard-passed false e u h = absurd (cc h)

may_commit_own :
    (i r k now : ℕ) (w : String) (row : RunJob) → may_commit i r k w now row ≡ true → row.id ≡ i
unfolding may_commit
may_commit_own i r k now w row h = ground arith

pub finish_row-KeepsKeys : {R : Type 0} (run : StoredRun R) → KeepsKeys (finish_row run)
unfolding finish_row
finish_row-KeepsKeys run = record { same_id = λ r. refl; same_run = λ r. refl }

module _ {R : Type 0} where
  -- A run that is put is found, and no other run changes.
  find_run-put_run :
      (i j : ℕ) (run : StoredRun R) (runs : List (ℕ × StoredRun R))
      → find_run j (put_run i run runs) ≡ (if i == j then some run else find_run j runs)
  unfolding find_run put_run
  find_run-put_run i j run [] = refl
  find_run-put_run i j run ((k, old) ∷ runs) = ground (arith, find_run-put_run i j run runs)

  -- A commit that was made, from the database before to the one after.
  pub record Committed (i r k now : ℕ) (worker : String) (run : StoredRun R) (db db' : Database R)
      : Type 0 where
    pub row : RunJob
    pub held : job i db.jobs ≡ some row
    pub own_run : row.run_id ≡ r
    pub holds : Holds k worker now row
    pub after : RunJob
    pub closed : job i db'.jobs ≡ some after
    pub finished : Finished run row after
    pub other_jobs : db'.jobs ≡ map (at_id i (λ _. after)) db.jobs
    pub stored : find_run r db'.runs ≡ some run
    pub other_runs : (j : ℕ) → j ≢ r → find_run j db'.runs ≡ find_run j db.runs

  -- The two outcomes of a commit.
  abbrev pub Outcome :
      ℕ → ℕ → ℕ → ℕ → String → StoredRun R → Database R → Database R → Bool → Type 0
  Outcome i r k now worker run db db' reply =
      ((reply ≡ true) × Committed i r k now worker run db db')
      ⊎ ((reply ≡ false)
          × (db' ≡ db)
          × All (λ row. ¬ ((row.id ≡ i) × (row.run_id ≡ r) × Holds k worker now row)) db.jobs)

  module _ (i r k now : ℕ) (w : String) (run : StoredRun R) (db : Database R)
      (d : Distinct (ids db.jobs))
      (ended : (is_completed run.status || is_failed run.status) ≡ true) where
    abbrev may : RunJob → Bool
    may = may_commit i r k w now

    commit_job-hit :
        (row : RunJob)
        → job i db.jobs ≡ some row
        → may row ≡ true
        → commit_job i r k run w now db ≡ (
          record { jobs = map (at_id i (finish_row run)) db.jobs; runs = put_run r run db.runs },
          true,
        )
    unfolding commit_job
    commit_job-hit row e y =
        let found = first_where_hit db.jobs i d may (may_commit_own i r k now w) row e y in
        let written =
          write_row-eq (finish_row run) db.jobs row (finish_row-KeepsKeys run) d
            (mem_of_job i db.jobs row e)
          ∙ ap (λ n. map (at_id n (finish_row run)) db.jobs) (job-eq_id i db.jobs row e) in
        rw (found, commit_job)
          (ap
            (λ u.
              let b : Database R = record { jobs = u; runs = put_run r run db.runs } in (b, true))
            written)

    commit_job-miss :
        ((row : RunJob) → job i db.jobs ≡ some row → may row ≡ false)
        → commit_job i r k run w now db ≡ (db, false)
    unfolding commit_job
    commit_job-miss off =
        let none_left =
          first_where-none may db.jobs
            (All-fail db.jobs i d may (may_commit_own i r k now w) off) in
        rw (none_left, commit_job)

    abbrev StaysOff : Type 0
    StaysOff = (row : RunJob) → job i db.jobs ≡ some row → may row ≡ false

    may_cases : ((row : RunJob) × (job i db.jobs ≡ some row) × (may row ≡ true)) ⊎ StaysOff
    may_cases = elim (Option-cases (job i db.jobs)) [
      | inl n ↦ inr (λ row e. cc)
      | inr (row, e) ↦ elim (Bool-cases (may row)) [
        | inl y ↦ inl (row, e, y)
        | inr n ↦ inr (λ x f. ap may (some_inj x row (sym f ∙ e)) ∙ n)
      ]
    ]

    commit_job-Committed :
        (row : RunJob)
        → job i db.jobs ≡ some row
        → may row ≡ true
        → Committed i r k now w run db (commit_job i r k run w now db).0
    commit_job-Committed row e y =
        subst (λ x. Committed i r k now w run db x) (sym (ap (λ x. x.0) (commit_job-hit row e y)))
          (record {
            row = row;
            held = e;
            own_run = ((may_commit_iff i r k now w row).0 y).1;
            holds = ((may_commit_iff i r k now w row).0 y).2;
            after = finish_row run row;
            finished = finish_row-Finished run row ended;
            closed =
                job-map i (at_id i (finish_row run)) db.jobs
                  (KeepsKeys-if (λ x. x.id == i) (finish_row run) (finish_row-KeepsKeys run))
                ∙ rw e (rw ((==_iff row.id i).1 (job-eq_id i db.jobs row e)));
            other_jobs = map-at_id (finish_row run) i db.jobs row (finish_row-KeepsKeys run) d e;
            stored = find_run-put_run r r run db.runs ∙ rw ((==_iff r r).1 refl);
            other_runs = λ j apart.
                let off : (r == j) ≡ false = ground arith in
                find_run-put_run r j run db.runs ∙ rw off;
          })

    job-Outcome :
        (db' : Database R) (reply : Bool)
        → commit_job i r k run w now db ≡ (db', reply)
        → Outcome i r k now w run db db' reply
    job-Outcome db' reply h = elim may_cases [
      | inl (row, e, y) ↦ inl (
        ap (λ x. x.1) (sym h ∙ commit_job-hit row e y),
        subst (λ x. Committed i r k now w run db x.0) h (commit_job-Committed row e y),
      )
      | inr off ↦
          let miss = sym h ∙ commit_job-miss off in
          inr (
            ap (λ x. x.1) miss,
            ap (λ x. x.0) miss,
            All-weaken (λ row. may row ≡ false)
                (λ row. ¬ ((row.id ≡ i) × (row.run_id ≡ r) × Holds k w now row)) db.jobs
                (λ row e held. absurd (cc (e, (may_commit_iff i r k now w row).1 held)))
                (All-fail db.jobs i d may (may_commit_own i r k now w) off),
          )
    ]

  commit_texts_of :
      (run : StoredRun R) (w : String) (now : ℕ) (db : Database R) (i r k : ℕ) (a b c d : UuidText)
      → a ≡ some r
      → b ≡ some r
      → c ≡ some i
      → d ≡ some k
      → commit_texts a b c d run w now db ≡ commit_job i r k run w now db
  unfolding commit_texts
  commit_texts_of run w now db i r k a b c d ea eb ec ed =
      rw (ea, eb, ec, ed, commit_texts) (rw ((==_iff r r).1 refl))

  commit_of_Matches :
      (run : StoredRun R) (lease : RunJobLease) (w : String) (now : ℕ) (db : Database R) (i r k : ℕ)
      {x : Database R × Bool}
      → Matches run lease r i k
      → commit_leased_result run lease w now db ≡ ok x
      → ((is_completed run.status || is_failed run.status) ≡ true)
        × (commit_job i r k run w now db ≡ x)
  unfolding commit_leased_result
  commit_of_Matches run lease w now db i r k mt h =
      let terminal = is_completed run.status || is_failed run.status in
      let dated = not (is_none run.ended_at) in
      let (_, passed, h₁) =
        >>=-eq-ok (guard (terminal && dated) leased_run_result_not_terminal) _ h in
      (
        (both_of terminal dated (guard-passed (terminal && dated) _ _ passed)).0,
        sym (
              commit_texts_of run w now db i r k run.run_id lease.run_id lease.job_id lease.token
                mt.run_named mt.lease_named mt.denotes.names_job mt.denotes.names_token)
            ∙ ok-injective _ _ h₁,
      )

  -- On a valid table, for a run and a lease of job i whose texts agree, a commit that returns
  -- either answers True, and then the job was leased for that run under the worker's name and
  -- token, unexpired, the run is stored, the row of the job is completed without an alias if the
  -- run is completed and failed with the run's alias if it failed, its lease columns are empty,
  -- its other columns stay, and no other run or job changes; or it answers False, no row is so
  -- held, and nothing is changed.
  pub commit-Outcome :
      (m : ℕ) (run : StoredRun R) (lease : RunJobLease) (worker : String) (now : ℕ)
      (db db' : Database R) (reply : Bool) (i r k : ℕ)
      → IsValid m db.jobs
      → Matches run lease r i k
      → commit_leased_result run lease worker now db ≡ ok (db', reply)
      → Outcome i r k now worker run db db' reply
  commit-Outcome m run lease worker now db db' reply i r k v mt h =
      let (ended, e) = commit_of_Matches run lease worker now db i r k mt h in
      job-Outcome i r k now worker run db v.own_ids ended db' reply e
