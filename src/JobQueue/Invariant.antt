-- ===== src/JobQueue/Invariant.antt =====
-- What holds of the job table between two transactions, and that every operation keeps it.
use voxbench.Base.{
  ℕ, ◌≤◌, ◌≡◌, sym, ap, subst, ◌∙◌, Bool, true, false, Option, none, some, [], ◌∷◌, map,
  if◌then◌else◌, ◌==◌, All, All-map, All-weaken, Memᴰ, inl, inr, Bool-cases,
}
use voxbench.JobQueue.Row.{RunJob, Table, is_leased}
use voxbench.JobQueue.Statements.{update_where, write_row}
use voxbench.JobQueue.Rows.{
  Distinct, ids, run_ids, KeepsKeys, KeepsKeys-if, ids-map, run_ids-map, write_row-eq,
}

abbrev pub is_some {ℓ} : {A : Type ℓ} → Option A → Bool
is_some none = false
is_some (some a) = true

-- A row has an owner, a token and an expiry exactly while it is leased; attempts are within the
-- limit, and a leased row has had one.
pub record IsWell (max_attempts : ℕ) (row : RunJob) : Type 0 where
  pub capped : row.attempts ≤ max_attempts
  pub owned : is_some row.lease_owner ≡ is_leased row.state
  pub tokened : is_some row.lease_token ≡ is_leased row.state
  pub expiring : is_some row.lease_expires_at ≡ is_leased row.state
  pub tried : is_leased row.state ≡ true → 1 ≤ row.attempts

-- Every row is well, and neither an id nor a run occurs twice.
pub record IsValid (max_attempts : ℕ) (t : Table) : Type 0 where
  pub rows : All (IsWell max_attempts) t
  pub own_ids : Distinct (ids t)
  pub own_runs : Distinct (run_ids t)

module _ {max_attempts : ℕ} where
  map-IsValid :
      (f : RunJob → RunJob) (t : Table)
      → KeepsKeys f
      → ((row : RunJob) → IsWell max_attempts row → IsWell max_attempts (f row))
      → IsValid max_attempts t
      → IsValid max_attempts (map f t)
  map-IsValid f t k keep v = record {
    rows = All-map _ f t (All-weaken _ _ t keep v.rows);
    own_ids = subst Distinct (sym (ids-map f t k)) v.own_ids;
    own_runs = subst Distinct (sym (run_ids-map f t k)) v.own_runs;
  }

  pub update_where-IsValid :
      (p : RunJob → Bool) (change : RunJob → RunJob) (t : Table)
      → KeepsKeys change
      → ((row : RunJob) → p row ≡ true → IsWell max_attempts row → IsWell max_attempts (change row))
      → IsValid max_attempts t
      → IsValid max_attempts (update_where p change t).0
  unfolding update_where
  update_where-IsValid p change t k keep v = map-IsValid _ t (KeepsKeys-if p change k) one v
    where
      one :
          (row : RunJob)
          → IsWell max_attempts row
          → IsWell max_attempts (if p row then change row else row)
      one row w = elim (Bool-cases (p row)) [ inl e ↦ rw e (keep row e w) | inr e ↦ rw e w ]

  write_row-All :
      (new : RunJob) (t : Table)
      → IsWell max_attempts new
      → All (IsWell max_attempts) t
      → All (IsWell max_attempts) (write_row new t)
  unfolding write_row
  write_row-All new [] w h = tt
  write_row-All new (r ∷ t) w h = elim (Bool-cases (r.id == new.id)) [
    | inl e ↦ rw e (w, write_row-All new t w h.1)
    | inr e ↦ rw e (h.0, write_row-All new t w h.1)
  ]

  pub write_row-IsValid :
      (change : RunJob → RunJob) (t : Table) (row : RunJob)
      → KeepsKeys change
      → Memᴰ row t
      → IsWell max_attempts (change row)
      → IsValid max_attempts t
      → IsValid max_attempts (write_row (change row) t)
  write_row-IsValid change t row k m w v =
      let same = write_row-eq change t row k v.own_ids m in
      let keys = KeepsKeys-if (λ r. r.id == row.id) change k in
      record {
        rows = write_row-All (change row) t w v.rows;
        own_ids = subst Distinct (sym (ap ids same ∙ ids-map _ t keys)) v.own_ids;
        own_runs = subst Distinct (sym (ap run_ids same ∙ run_ids-map _ t keys)) v.own_runs;
      }
