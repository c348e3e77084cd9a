-- ===== src/JobQueue/Outcomes.antt =====
-- An operation that returns has passed its checks, and is its transaction.
use voxbench.Base.{ℕ, ◌+◌, ◌≡◌, ap, ◌∙◌, String, Bool, Option, none, some, ◌==◌, leb}
use voxbench.JobQueue.Row.{
  RunJob, Table, UuidText, RunJobLease, ok, guard, >>=-eq-ok, ok-injective, seconds, parse_uuid,
  validate_alias, validate_lease_seconds, worker_id_invalid, job_id_invalid, lease_token_invalid,
  failure_alias_invalid, retry_delay_invalid, max_retry_delay_seconds, Error,
}
use voxbench.JobQueue.Statements.{update_where}
use voxbench.JobQueue.Operations.{
  claim_job, claim, is_active, active_lease_conditions, extend_row, heartbeat, close_row, complete,
  fail_job, fail,
}

-- UPDATE … WHERE with the reply `rowcount == 1`.
abbrev pub update_one : (RunJob → Bool) → (RunJob → RunJob) → Table → Table × Bool
update_one p change t = ((update_where p change t).0, (update_where p change t).1 == 1)

-- What the lease's texts denote.
pub record Denotes (lease : RunJobLease) (job_id token : ℕ) : Type 0 where
  pub names_job : lease.job_id ≡ some job_id
  pub names_token : lease.token ≡ some token

pub claim-ok :
    (m : ℕ) (w : String) (s now token : ℕ) (locked : ℕ → Bool) (t : Table)
    {r : Table × Option RunJobLease}
    → claim m w s now token locked t ≡ ok r
    → claim_job m w (now + seconds s) now token locked t ≡ r
unfolding claim
claim-ok m w s now token locked t h =
    let (_, _, h₁) = >>=-eq-ok (validate_alias w worker_id_invalid) _ h in
    let (_, _, h₂) = >>=-eq-ok (validate_lease_seconds s) _ h₁ in ok-injective _ _ h₂

parse_uuid-ok : (u : UuidText) (e : Error) {n : ℕ} → parse_uuid u e ≡ ok n → u ≡ some n
unfolding parse_uuid
parse_uuid-ok none e h = cc
parse_uuid-ok (some m) e h = ap some (ok-injective _ _ h)

active_lease_conditions-ok :
    (lease : RunJobLease) (w : String) (now : ℕ) {p : RunJob → Bool}
    → active_lease_conditions lease w now ≡ ok p
    → (j k : ℕ) × Denotes lease j k × (is_active j k w now ≡ p)
unfolding active_lease_conditions
active_lease_conditions-ok lease w now h =
    let (j, hj, h₁) = >>=-eq-ok (parse_uuid lease.job_id job_id_invalid) _ h in
    let (k, hk, h₂) = >>=-eq-ok (parse_uuid lease.token lease_token_invalid) _ h₁ in
    (
      j,
      k,
      record { names_job = parse_uuid-ok _ _ hj; names_token = parse_uuid-ok _ _ hk },
      ok-injective _ _ h₂,
    )

pub heartbeat-ok :
    (lease : RunJobLease) (w : String) (s now : ℕ) (t : Table) {r : Table × Bool}
    → heartbeat lease w s now t ≡ ok r
    → (j k : ℕ) × Denotes lease j k
      × (update_one (is_active j k w now) (extend_row (now + seconds s)) t ≡ r)
unfolding heartbeat
heartbeat-ok lease w s now t h =
    let (_, _, h₁) = >>=-eq-ok (validate_alias w worker_id_invalid) _ h in
    let (_, _, h₂) = >>=-eq-ok (validate_lease_seconds s) _ h₁ in
    let (p, hp, h₃) = >>=-eq-ok (active_lease_conditions lease w now) _ h₂ in
    let (j, k, d, e) = active_lease_conditions-ok lease w now hp in
    (j, k, d, ap (λ q. update_one q (extend_row (now + seconds s)) t) e ∙ ok-injective _ _ h₃)

pub complete-ok :
    (lease : RunJobLease) (w : String) (now : ℕ) (t : Table) {r : Table × Bool}
    → complete lease w now t ≡ ok r
    → (j k : ℕ) × Denotes lease j k × (update_one (is_active j k w now) close_row t ≡ r)
unfolding complete
complete-ok lease w now t h =
    let (_, _, h₁) = >>=-eq-ok (validate_alias w worker_id_invalid) _ h in
    let (p, hp, h₂) = >>=-eq-ok (active_lease_conditions lease w now) _ h₁ in
    let (j, k, d, e) = active_lease_conditions-ok lease w now hp in
    (j, k, d, ap (λ q. update_one q close_row t) e ∙ ok-injective _ _ h₂)

pub fail-ok :
    (m : ℕ) (lease : RunJobLease) (w a : String) (retryable : Bool) (delay now : ℕ) (t : Table)
    {r : Table × Bool}
    → fail m lease w a retryable delay now t ≡ ok r
    → (j k : ℕ) × Denotes lease j k
      × (fail_job m (is_active j k w now) a retryable (now + seconds delay) t ≡ r)
unfolding fail
fail-ok m lease w a retryable delay now t h =
    let (_, _, h₁) = >>=-eq-ok (validate_alias w worker_id_invalid) _ h in
    let (_, _, h₂) = >>=-eq-ok (validate_alias a failure_alias_invalid) _ h₁ in
    let (_, _, h₃) =
      >>=-eq-ok (guard (leb delay max_retry_delay_seconds) retry_delay_invalid) _ h₂ in
    let (p, hp, h₄) = >>=-eq-ok (active_lease_conditions lease w now) _ h₃ in
    let (j, k, d, e) = active_lease_conditions-ok lease w now hp in
    (j, k, d, ap (λ q. fail_job m q a retryable (now + seconds delay) t) e ∙ ok-injective _ _ h₄)
