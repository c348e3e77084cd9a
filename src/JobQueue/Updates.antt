-- ===== src/JobQueue/Updates.antt =====
-- An update or a selection that concerns one job of a table whose ids differ.
use voxbench.Base.{
  ℕ, suc, ◌≡◌, ◌≢◌, refl, sym, ap, ◌∙◌, Bool, true, false, none, some, List, [], ◌∷◌, ◌==◌, ==_iff,
  All, All-of_mem, Memᴰ, arith, map, count_if, if◌then◌else◌, first_where, inl, inr, Bool-cases,
  Option-cases, first_where-mem, first_where_misses, All-mem, map-eq_of_mem,
}
use voxbench.JobQueue.Row.{RunJob, Table}
use voxbench.JobQueue.Statements.{update_where}
use voxbench.JobQueue.Outcomes.{update_one}
use voxbench.JobQueue.Rows.{
  job, ids, job-mem, job-eq_id, Distinct, at_id, Absent-mem, mem_of_job, job_unique,
}

count_if-none : (p : RunJob → Bool) (t : Table) → All (λ row. p row ≡ false) t → count_if p t ≡ 0
count_if-none p [] h = refl
count_if-none p (r ∷ t) h = rw (h.0) (count_if-none p t h.1)

-- Of rows whose ids differ one passes, if the test is for an id that is there.
count_if-one :
    (p : RunJob → Bool) (i : ℕ) (t : Table) (row : RunJob)
    → Distinct (ids t)
    → Memᴰ row t
    → row.id ≡ i
    → ((r : RunJob) → Memᴰ r t → p r ≡ (r.id == i))
    → count_if p t ≡ 1
count_if-one p i [] row d m q f = elim m [ ]
count_if-one p i (r ∷ t) row d (Memᴰ.head e) q f =
    let own : r.id ≡ i = ap (λ (x : RunJob). x.id) (sym e) ∙ q in
    let on : p r ≡ true = f r (Memᴰ.head refl) ∙ (==_iff r.id i).1 own in
    rw on (ap suc (count_if-none p t (All-of_mem _ t (λ s m. off s m own))))
  where
    off : (s : RunJob) → Memᴰ s t → r.id ≡ i → p s ≡ false
    off s m own = let apart : s.id ≢ r.id = Absent-mem t d.0 m in f s (Memᴰ.tail m) ∙ ground arith
count_if-one p i (r ∷ t) row d (Memᴰ.tail m) q f =
    let apart : row.id ≢ r.id = Absent-mem t d.0 m in
    let off : p r ≡ false = f r (Memᴰ.head refl) ∙ ground arith in
    rw off (count_if-one p i t row d.1 m q (λ s n. f s (Memᴰ.tail n)))

-- An update that finds no row changes none.
pub update_one-none :
    (p : RunJob → Bool) (change : RunJob → RunJob) (t : Table)
    → All (λ row. p row ≡ false) t
    → update_one p change t ≡ (t, false)
unfolding update_where
update_one-none p change t h = cc (unchanged t h, count_if-none p t h)
  where
    unchanged :
        (u : Table)
        → All (λ row. p row ≡ false) u
        → map (λ row. if p row then change row else row) u ≡ u
    unchanged [] h = refl
    unchanged (r ∷ u) h = rw (h.0) (ap (λ (x : Table). r ∷ x) (unchanged u h.1))

pub first_where-none {ℓ} :
    {A : Type ℓ} (p : A → Bool) (t : List A) → All (λ row. p row ≡ false) t → first_where p t ≡ none
unfolding first_where
first_where-none p [] h = refl
first_where-none p (r ∷ t) h = rw (h.0) (first_where-none p t h.1)

-- The test `p` passes for rows of the job `i` alone.
module _ (t : Table) (i : ℕ) (d : Distinct (ids t)) (p : RunJob → Bool)
    (own : (row : RunJob) → p row ≡ true → row.id ≡ i) where
  -- No row passes if the job's row does not.
  pub All-fail :
      ((row : RunJob) → job i t ≡ some row → p row ≡ false) → All (λ row. p row ≡ false) t
  All-fail fails = All-of_mem _ t one
    where
      one : (row : RunJob) → Memᴰ row t → p row ≡ false
      one row mem = elim (Bool-cases (p row)) [
        | inr n ↦ n
        | inl y ↦ fails row (ap (λ n. job n t) (sym (own row y)) ∙ job-mem t row d mem)
      ]

  module _ (row : RunJob) (e : job i t ≡ some row) (y : p row ≡ true) where
    -- The selection finds the job's row, if it passes.
    pub first_where_hit : first_where p t ≡ some row
    first_where_hit = elim (Option-cases (first_where p t)) [
      | inl n ↦
          let no : p row ≡ false = All-mem _ t (first_where_misses p t n) (mem_of_job i t row e) in
          absurd (cc)
      | inr (r, f) ↦
          let (m, z) = first_where-mem p t r f in f ∙ ap some (job_unique i t row r d e m (own r z))
    ]

    passes_at : (r : RunJob) → Memᴰ r t → p r ≡ (r.id == i)
    passes_at r m = elim (Bool-cases (r.id == i)) [
      | inl on ↦ ap p (job_unique i t row r d e m ((==_iff r.id i).0 on)) ∙ y ∙ sym on
      | inr off ↦ elim (Bool-cases (p r)) [
        | inl z ↦ absurd (ground (arith, own r z))
        | inr n ↦ n ∙ sym off
      ]
    ]

    -- The update changes the job's row and no other, and counts one.
    pub update_one-hit :
        (change : RunJob → RunJob) → update_one p change t ≡ (map (at_id i change) t, true)
    unfolding update_where
    update_one-hit change = cc (
      map-eq_of_mem (λ r. if p r then change r else r) (at_id i change) t
          (λ r m. ap (λ b. if b then change r else r) (passes_at r m)),
      count_if-one p i t row d (mem_of_job i t row e) (job-eq_id i t row e) passes_at,
    )
