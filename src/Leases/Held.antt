-- ===== src/Leases/Held.antt =====
-- What the conditions on a lease mean: who holds a job, and until when.
use voxbench.Base.{
  ℕ, ◌<◌, ◌≡◌, ◌↔◌, refl, String, true, Option, some, none, arith, text_column_eq, column_gtb,
  column_eq, subst, ==_iff, text_column_eq→, text_column_eq_refl,
}
use voxbench.JobQueue.Row.{RunJob, RunJobState, queued, leased, completed, failed, is_leased}
use voxbench.JobQueue.Operations.{is_active}
use voxbench.Repository.{may_commit}

-- The job is leased to the worker under the token, and the lease runs past `now`.
pub record Holds (token : ℕ) (worker : String) (now : ℕ) (row : RunJob) : Type 0 where
  pub state : row.state ≡ leased
  pub owner : row.lease_owner ≡ some worker
  pub token_held : row.lease_token ≡ some token
  pub expiry : ℕ
  pub expires : row.lease_expires_at ≡ some expiry
  pub unexpired : now < expiry

column_gtb→ : (o : Option ℕ) (b : ℕ) → column_gtb o b ≡ true → (e : ℕ) × (o ≡ some e) × (b < e)
column_gtb→ none b h = cc
column_gtb→ (some e) b h = (e, refl, ground arith)

is_leased→ : (s : RunJobState) → is_leased s ≡ true → s ≡ leased
is_leased→ leased h = refl
is_leased→ queued h = cc
is_leased→ completed h = cc
is_leased→ failed h = cc

module _ (k now : ℕ) (worker : String) (row : RunJob) where
  Holds-of :
      is_leased row.state ≡ true
      → text_column_eq row.lease_owner worker ≡ true
      → column_eq row.lease_token k ≡ true
      → column_gtb row.lease_expires_at now ≡ true
      → Holds k worker now row
  Holds-of a b c d =
      let (e, f, g) = column_gtb→ row.lease_expires_at now d in
      record {
        state = is_leased→ row.state a;
        owner = text_column_eq→ row.lease_owner worker b;
        token_held = ground arith;
        expiry = e;
        expires = f;
        unexpired = g;
      }

  Holds-active : Holds k worker now row → is_active row.id k worker now row ≡ true
  unfolding is_active
  Holds-active h =
      let o : text_column_eq row.lease_owner worker ≡ true =
        rw h.owner (text_column_eq_refl worker) in
      let t : column_eq row.lease_token k ≡ true = rw h.token_held ((==_iff k k).1 refl) in
      let x : column_gtb row.lease_expires_at now ≡ true =
        rw h.expires (let u = h.unexpired in ground arith) in
      rw (h.state, o, t, x) (let e = (==_iff row.id row.id).1 refl in ground arith)

-- `is_active`, which `heartbeat`, `complete` and `fail` test, is true exactly of the row of the
-- job that the worker holds under the token and whose lease has not expired.
pub is_active_iff :
    (i k now : ℕ) (worker : String) (row : RunJob)
    → (is_active i k worker now row ≡ true) ↔ ((row.id ≡ i) × Holds k worker now row)
unfolding is_active
is_active_iff i k now worker row = (
  λ h. (
    ground arith,
    Holds-of k now worker row (ground arith) (ground arith) (ground arith) (ground arith),
  ),
  λ (e, h). subst (λ j. is_active j k worker now row ≡ true) e (Holds-active k now worker row h),
)

-- `may_commit` is true exactly of the row of the job and run that the worker holds under the token
-- and whose lease has not expired.
pub may_commit_iff :
    (i r k now : ℕ) (worker : String) (row : RunJob)
    → (may_commit i r k worker now row ≡ true)
      ↔ ((row.id ≡ i) × (row.run_id ≡ r) × Holds k worker now row)
unfolding may_commit
may_commit_iff i r k now worker row = (
  λ h. (
    ground arith,
    ground arith,
    Holds-of k now worker row (ground arith) (ground arith) (ground arith) (ground arith),
  ),
  λ (e, f, h).
      let a = (is_active_iff i k now worker row).1 (e, h) in unfold is_active in ground arith,
)
