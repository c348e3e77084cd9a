-- ===== src/JobQueue/Replies.antt =====
-- What heartbeat, complete and fail do and answer, on a valid table.
use voxbench.Base.{
  ℕ, ◌+◌, ◌≡◌, refl, sym, ap, subst, subst₂, ◌∙◌, String, Bool, true, false, some, ◌==◌, ==_iff,
  arith, map, inl, inr, Bool-cases, Option-cases, some_inj,
}
use voxbench.JobQueue.Row.{RunJob, Table, RunJobLease, ok, seconds}
use voxbench.JobQueue.Operations.{
  is_active, extend_row, heartbeat, close_row, complete, fail_row, fail_job, fail,
}
use voxbench.JobQueue.Outcomes.{Denotes, update_one, heartbeat-ok, complete-ok, fail-ok}
use voxbench.JobQueue.Rows.{
  ids, Distinct, job, at_id, KeepsKeys, write_row-eq, mem_of_job, job-eq_id, job-map, KeepsKeys-if,
}
use voxbench.JobQueue.Updates.{
  update_one-none, first_where-none, All-fail, first_where_hit, update_one-hit,
}
use voxbench.JobQueue.Invariant.{IsValid}
use voxbench.JobQueue.Kept.{fail_row-KeepsKeys, extend_row-KeepsKeys, close_row-KeepsKeys}
use voxbench.JobQueue.Replacing.{
  Exact, Replacement, Accepted-Replaced, FailedAttempt, fail_row-FailedAttempt,
}

module _ (i : ℕ) (p : RunJob → Bool) (change : RunJob → RunJob) (t : Table) (d : Distinct (ids t))
    (own : (row : RunJob) → p row ≡ true → row.id ≡ i) (k : KeepsKeys change) where
  changed : (row : RunJob) → job i t ≡ some row → job i (map (at_id i change) t) ≡ some (change row)
  changed row e =
      job-map i (at_id i change) t (KeepsKeys-if (λ r. r.id == i) change k)
      ∙ rw e (rw ((==_iff row.id i).1 (job-eq_id i t row e)))

  Exact-hit :
      (row : RunJob)
      → job i t ≡ some row
      → p row ≡ true
      → Exact i p change t (map (at_id i change) t) true
  Exact-hit row e y =
      inl (refl, record { row = row; held = e; passes = y; after = changed row e; others = refl })

  Exact-miss : ((row : RunJob) → job i t ≡ some row → p row ≡ false) → Exact i p change t t false
  Exact-miss off = inr (refl, refl, All-fail t i d p own off)

  -- An operation that changes the row if it passes, and nothing otherwise, is exact.
  pub exact :
      (op : Table × Bool)
      → ((row : RunJob) → job i t ≡ some row → p row ≡ true → op ≡ (map (at_id i change) t, true))
      → (((row : RunJob) → job i t ≡ some row → p row ≡ false) → op ≡ (t, false))
      → Exact i p change t op.0 op.1
  exact op hit miss = elim (Option-cases (job i t)) [
    | inl n ↦
        let only : (row : RunJob) → job i t ≡ some row → p row ≡ false = λ row e. cc in
        subst (λ (x : Table × Bool). Exact i p change t x.0 x.1) (sym (miss only)) (Exact-miss only)
    | inr (row, e) ↦ elim (Bool-cases (p row)) [
      | inl y ↦
          subst (λ (x : Table × Bool). Exact i p change t x.0 x.1) (sym (hit row e y))
            (Exact-hit row e y)
      | inr n ↦
          let only = λ (r : RunJob) (f : job i t ≡ some r). ap p (some_inj r row (sym f ∙ e)) ∙ n in
          subst (λ (x : Table × Bool). Exact i p change t x.0 x.1) (sym (miss only))
            (Exact-miss only)
    ]
  ]

  update_one-Exact : Exact i p change t (update_one p change t).0 (update_one p change t).1
  update_one-Exact =
      exact (update_one p change t) (λ row e y. update_one-hit t i d p own row e y change)
        (λ off. update_one-none p change t (All-fail t i d p own off))

active_own : (i k now : ℕ) (w : String) (row : RunJob) → is_active i k w now row ≡ true → row.id ≡ i
unfolding is_active
active_own i k now w row h = ground arith

-- `fail` in the transaction is exact too.
module _ (m : ℕ) (t : Table) (d : Distinct (ids t)) (j l : ℕ) (worker : String) (now : ℕ)
    (a : String) (re : Bool) (at : ℕ) where
  abbrev active : RunJob → Bool
  active = is_active j l worker now

  fail_job-hit :
      (row : RunJob)
      → job j t ≡ some row
      → active row ≡ true
      → fail_job m active a re at t ≡ (map (at_id j (fail_row m a re at)) t, true)
  unfolding fail_job
  fail_job-hit row e y =
      let found = first_where_hit t j d active (active_own j l now worker) row e y in
      let keys = fail_row-KeepsKeys m a re at in
      let written = write_row-eq (fail_row m a re at) t row keys d (mem_of_job j t row e) in
      rw (found, fail_job)
        (ap (λ u. (u, true))
          (written ∙ ap (λ n. map (at_id n (fail_row m a re at)) t) (job-eq_id j t row e)))

  fail_job-miss :
      ((row : RunJob) → job j t ≡ some row → active row ≡ false)
      → fail_job m active a re at t ≡ (t, false)
  unfolding fail_job
  fail_job-miss off =
      let none_left =
        first_where-none active t (All-fail t j d active (active_own j l now worker) off) in
      rw (none_left, fail_job)

  fail_job-Exact :
      Exact j active
        (fail_row m a re at)
        t
        (fail_job m active a re at t).0
        (fail_job m active a re at t).1
  fail_job-Exact =
      exact j active (fail_row m a re at) t d (active_own j l now worker)
        (fail_row-KeepsKeys m a re at) (fail_job m active a re at t) fail_job-hit fail_job-miss

module _ (m : ℕ) (t t' : Table) (lease : RunJobLease) (i k : ℕ) (worker : String) (now : ℕ)
    (reply : Bool) (v : IsValid m t) (den : Denotes lease i k) where
  -- The texts of a lease denote one job and one token.
  along : (P : ℕ → ℕ → Type 0) {j l : ℕ} → Denotes lease j l → P j l → P i k
  along P {j} {l} den' x =
      subst₂ P (some_inj j i (sym den'.names_job ∙ den.names_job))
        (some_inj l k (sym den'.names_token ∙ den.names_token)) x

  -- On a valid table, with a lease that names job i and token k, a heartbeat that returns either
  -- answers True, the worker holds the lease unexpired, and only the expiry of that job is moved;
  -- or it answers False, no row is so held, and nothing is changed.
  pub heartbeat-Exact :
      (lease_seconds : ℕ)
      → heartbeat lease worker lease_seconds now t ≡ ok (t', reply)
      → Exact i (is_active i k worker now) (extend_row (now + seconds lease_seconds)) t t' reply
  heartbeat-Exact s h =
      let (j, l, den', e) = heartbeat-ok lease worker s now t h in
      along (λ a b. Exact a (is_active a b worker now) (extend_row (now + seconds s)) t t' reply)
        den'
        (subst (λ x. Exact j (is_active j l worker now) (extend_row (now + seconds s)) t x.0 x.1) e
          (update_one-Exact j (is_active j l worker now) (extend_row (now + seconds s)) t v.own_ids
            (active_own j l now worker) (extend_row-KeepsKeys (now + seconds s))))

  -- On a valid table, with a lease that names job i and token k, `complete` if it returns either
  -- answers True, the worker holds the lease unexpired, and only that job is closed; or it answers
  -- False, no row is so held, and nothing is changed.
  pub complete-Exact :
      complete lease worker now t ≡ ok (t', reply)
      → Exact i (is_active i k worker now) close_row t t' reply
  complete-Exact h =
      let (j, l, den', e) = complete-ok lease worker now t h in
      along (λ a b. Exact a (is_active a b worker now) close_row t t' reply) den'
        (subst (λ x. Exact j (is_active j l worker now) close_row t x.0 x.1) e
          (update_one-Exact j (is_active j l worker now) close_row t v.own_ids
            (active_own j l now worker) close_row-KeepsKeys))

  -- On a valid table, with a lease that names job i and token k, `fail` if it returns either
  -- answers True, the worker holds the lease unexpired, and only that job's row changes: it is
  -- queued if the failure is retryable and fewer attempts were made than the maximum, and failed
  -- otherwise, due after the delay, with the alias and without a lease, with its other columns
  -- kept; or it answers False, no row is so held, and nothing is changed.
  pub fail-Exact :
      (failure_alias : String) (retryable : Bool) (delay : ℕ)
      → fail m lease worker failure_alias retryable delay now t ≡ ok (t', reply)
      → Replacement i
          (is_active i k worker now)
          (FailedAttempt m failure_alias retryable (now + seconds delay))
          t
          t'
          reply
  fail-Exact a re delay h =
      let (j, l, den', e) = fail-ok m lease worker a re delay now t h in
      let at = now + seconds delay in
      let change = fail_row m a re at in
      let exact_change =
        along (λ x y. Exact x (is_active x y worker now) change t t' reply) den'
          (subst (λ x. Exact j (is_active j l worker now) change t x.0 x.1) e
            (fail_job-Exact m t v.own_ids j l worker now a re at)) in
      elim exact_change [
        | inl (answered, done) ↦ inl (
          answered,
          Accepted-Replaced change (FailedAttempt m a re at) (fail_row-KeepsKeys m a re at)
              v.own_ids (fail_row-FailedAttempt m a re at) done,
        )
        | inr (answered, same, off) ↦ inr (answered, same, off)
      ]
