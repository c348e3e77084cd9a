-- ===== src/JobQueue/Rows.antt =====
-- Lemmas on tables of jobs: distinct columns, the row of a job, and row-wise changes.
use voxbench.Base.{
  ℕ, ◌≡◌, ◌≢◌, refl, sym, ap, ◌∙◌, Bool, true, false, Option, some, List, [], ◌∷◌, map, ◌==◌,
  ==_iff, if◌then◌else◌, All, arith, first_where, Memᴰ, inl, inr, Bool-cases, first_where-mem,
  some_inj,
}
use mathlib.Core.Option
use voxbench.JobQueue.Row.{RunJob, Table}
use voxbench.JobQueue.Statements.{write_row}

abbrev pub Absent : ℕ → List ℕ → Type 0
Absent n = All (λ x. x ≢ n)

abbrev pub Distinct : List ℕ → Type 0
Distinct [] = Unit
Distinct (x ∷ xs) = Absent x xs × Distinct xs

abbrev pub ids : Table → List ℕ
ids = map (λ row. row.id)

abbrev pub run_ids : Table → List ℕ
run_ids = map (λ row. row.run_id)

-- The row of a job.
unfoldable pub job : ℕ → Table → Option RunJob
unfolding first_where
job i = first_where (λ row. row.id == i)

-- A change of the rows with one id.
abbrev pub at_id : ℕ → (RunJob → RunJob) → RunJob → RunJob
at_id i change row = if row.id == i then change row else row

-- A change that leaves the keys alone.
pub record KeepsKeys (change : RunJob → RunJob) : Type 0 where
  pub same_id : (row : RunJob) → (change row).id ≡ row.id
  pub same_run : (row : RunJob) → (change row).run_id ≡ row.run_id

pub KeepsKeys-if :
    (p : RunJob → Bool) (change : RunJob → RunJob)
    → KeepsKeys change
    → KeepsKeys (λ row. if p row then change row else row)
KeepsKeys-if p change k = record {
  same_id = λ row. elim (Bool-cases (p row)) [ inl e ↦ rw e (k.same_id row) | inr e ↦ rw e ];
  same_run = λ row. elim (Bool-cases (p row)) [ inl e ↦ rw e (k.same_run row) | inr e ↦ rw e ];
}

pub ids-map : (f : RunJob → RunJob) (t : Table) → KeepsKeys f → ids (map f t) ≡ ids t
ids-map f [] k = refl
ids-map f (r ∷ t) k = cc (k.same_id r, ids-map f t k)

pub run_ids-map : (f : RunJob → RunJob) (t : Table) → KeepsKeys f → run_ids (map f t) ≡ run_ids t
run_ids-map f [] k = refl
run_ids-map f (r ∷ t) k = cc (k.same_run r, run_ids-map f t k)

pub job-map :
    (i : ℕ) (f : RunJob → RunJob) (t : Table)
    → KeepsKeys f
    → job i (map f t) ≡ Option.map f (job i t)
unfolding job
job-map i f [] k = refl
job-map i f (r ∷ t) k = elim (Bool-cases (r.id == i)) [
  | inl e ↦ rw (ap (λ n. n == i) (k.same_id r) ∙ e, e)
  | inr e ↦ rw (ap (λ n. n == i) (k.same_id r) ∙ e, e) (job-map i f t k)
]

pub Absent-mem : (t : Table) {row : RunJob} {i : ℕ} → Absent i (ids t) → Memᴰ row t → row.id ≢ i
Absent-mem [] h m q = elim m [ ]
Absent-mem (r ∷ t) h (Memᴰ.head e) q = h.0 (ap (λ (x : RunJob). x.id) (sym e) ∙ q)
Absent-mem (r ∷ t) h (Memᴰ.tail m) q = Absent-mem t h.1 m q

pub at_id_hit : (i : ℕ) (f : RunJob → RunJob) (r : RunJob) → r.id ≡ i → at_id i f r ≡ f r
at_id_hit i f r e = rw ((==_iff r.id i).1 e)

pub at_id_miss : (i : ℕ) (f : RunJob → RunJob) (r : RunJob) → r.id ≢ i → at_id i f r ≡ r
at_id_miss i f r n = let off : (r.id == i) ≡ false = ground arith in rw off

pub at_id-Absent :
    (t : Table) (i : ℕ) (f g : RunJob → RunJob)
    → Absent i (ids t)
    → map (at_id i f) t ≡ map (at_id i g) t
at_id-Absent [] i f g h = refl
at_id-Absent (r ∷ t) i f g h =
    cc (at_id_miss i f r h.0, at_id_miss i g r h.0, at_id-Absent t i f g h.1)

write_row-at_id :
    (i : ℕ) (new : RunJob) (t : Table) → new.id ≡ i → write_row new t ≡ map (at_id i (λ _. new)) t
unfolding write_row
write_row-at_id i new t e = ap (λ n. map (at_id n (λ _. new)) t) e

-- In a table whose ids differ, writing a changed row back changes the rows with its id.
pub write_row-eq :
    (change : RunJob → RunJob) (t : Table) (row : RunJob)
    → KeepsKeys change
    → Distinct (ids t)
    → Memᴰ row t
    → write_row (change row) t ≡ map (at_id row.id change) t
write_row-eq change t row k d m = write_row-at_id row.id (change row) t (k.same_id row) ∙ go t d m
  where
    go :
        (u : Table)
        → Distinct (ids u)
        → Memᴰ row u
        → map (at_id row.id (λ _. change row)) u ≡ map (at_id row.id change) u
    go [] d m = elim m [ ]
    go (r ∷ u) d (Memᴰ.head e) = cc (
      at_id_hit row.id (λ _. change row) r (ap (λ (x : RunJob). x.id) (sym e)),
      at_id_hit row.id change r (ap (λ (x : RunJob). x.id) (sym e)),
      at_id-Absent u r.id (λ _. change row) change d.0,
      ap (λ (n : ℕ). map (at_id n (λ _. change row)) u) (ap (λ (x : RunJob). x.id) e),
      ap (λ (n : ℕ). map (at_id n change) u) (ap (λ (x : RunJob). x.id) e),
    )
    go (r ∷ u) d (Memᴰ.tail m) =
        let n = λ (q : r.id ≡ row.id). Absent-mem u d.0 m (sym q) in
        cc (at_id_miss row.id (λ _. change row) r n, at_id_miss row.id change r n, go u d.1 m)

-- A row of the table is the row of its job.
pub job-mem : (t : Table) (row : RunJob) → Distinct (ids t) → Memᴰ row t → job row.id t ≡ some row
unfolding job
job-mem [] row d m = elim m [ ]
job-mem (r ∷ t) row d (Memᴰ.head e) =
    let on : (r.id == row.id) ≡ true = (==_iff r.id row.id).1 (ap (λ (x : RunJob). x.id) (sym e)) in
    rw on (ap some (sym e))
job-mem (r ∷ t) row d (Memᴰ.tail m) =
    let apart : row.id ≢ r.id = Absent-mem t d.0 m in
    let off : (r.id == row.id) ≡ false = ground arith in rw off (job-mem t row d.1 m)

pub job-eq_id : (i : ℕ) (t : Table) (row : RunJob) → job i t ≡ some row → row.id ≡ i
unfolding job
job-eq_id i t row e = (==_iff row.id i).0 (first_where-mem (λ r. r.id == i) t row e).1

pub mem_of_job : (i : ℕ) (t : Table) (row : RunJob) → job i t ≡ some row → Memᴰ row t
unfolding job
mem_of_job i t row e = (first_where-mem (λ r. r.id == i) t row e).0

-- A row with the job's id is the job's row.
pub job_unique :
    (i : ℕ) (t : Table) (row r : RunJob)
    → Distinct (ids t)
    → job i t ≡ some row
    → Memᴰ r t
    → r.id ≡ i
    → r ≡ row
job_unique i t row r d e m q = some_inj r row (sym (job-mem t r d m) ∙ ap (λ n. job n t) q ∙ e)

-- The change of one row is the change to what that row becomes.
pub map-at_id :
    (change : RunJob → RunJob) (i : ℕ) (t : Table) (row : RunJob)
    → KeepsKeys change
    → Distinct (ids t)
    → job i t ≡ some row
    → map (at_id i change) t ≡ map (at_id i (λ _. change row)) t
map-at_id change i t row k d e =
    let own = job-eq_id i t row e in
    sym
      (write_row-eq change t row k d (mem_of_job i t row e) ∙ ap (λ n. map (at_id n change) t) own)
    ∙ write_row-at_id i (change row) t (k.same_id row ∙ own)
