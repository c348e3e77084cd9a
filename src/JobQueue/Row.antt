-- ===== src/JobQueue/Row.antt =====
-- The data of src/voxbench/control_plane/job_queue.py, the row of `run_jobs` in
-- src/voxbench/control_plane/models.py, and the checks of arguments. Times are microseconds in UTC,
-- a UUID is its number.
use voxbench.Base.{
  ℕ, ◌*◌, String, Bool, true, false, ◌&&◌, Option, none, some, List, leb, ◌≡◌, refl, ap,
}
use voxbench.Alias.{is_safe_alias}

pub data RunJobState : Type 0 where
  queued leased completed failed : RunJobState

abbrev pub is_queued : RunJobState → Bool
is_queued queued = true
is_queued _ = false

abbrev pub is_leased : RunJobState → Bool
is_leased leased = true
is_leased _ = false

pub record RunJob : Type 0 where
  pub id : ℕ
  pub run_id : ℕ
  pub state : RunJobState
  pub available_at : ℕ
  pub lease_owner : Option String
  pub lease_token : Option ℕ
  pub lease_expires_at : Option ℕ
  pub attempts : ℕ
  pub failure_alias : Option String
  pub created_at : ℕ

abbrev pub Table : Type 0
Table = List RunJob

-- A text where the program expects a UUID: the number that `UUID(text)` reads, `none` if it raises.
abbrev pub UuidText : Type 0
UuidText = Option ℕ

pub record RunJobLease : Type 0 where
  pub job_id : UuidText
  pub run_id : UuidText
  pub token : UuidText
  pub attempt : ℕ
  pub expires_at : ℕ
  pub final_attempt : Bool

pub record RunJobStatus : Type 0 where
  pub job_id : UuidText
  pub run_id : UuidText
  pub state : RunJobState
  pub attempts : ℕ
  pub available_at : ℕ
  pub lease_owner : Option String
  pub lease_expires_at : Option ℕ
  pub failure_alias : Option String

-- The reasons of `ValueError`, `RunJobQueueError` and `RunRepositoryError`.
pub data Error : Type 0 where
  max_attempts_invalid run_id_invalid worker_id_invalid lease_seconds_invalid : Error
  failure_alias_invalid retry_delay_invalid job_id_invalid lease_token_invalid : Error
  queue_unavailable repository_unavailable : Error
  queued_run_not_running leased_run_result_not_terminal heartbeat_interval_invalid : Error

-- A call that raises, or returns.
pub data Result {ℓ} (A : Type ℓ) : Type ℓ where
  err : (reason : Error) → Result A
  ok : (value : A) → Result A

abbrev pub guard : (passes : Bool) → (reason : Error) → Result (Unit {0})
guard false reason = err reason
guard true reason = ok tt

infixl 5 ◌>>=◌ ◌>>◌
abbrev pub ◌>>=◌ {ℓ κ} :
    {A : Type ℓ} {B : Type κ} → (first : Result A) → (continue : A → Result B) → Result B
err reason >>= continue = err reason
ok value >>= continue = continue value

-- A chain that returns has returned at its first call.
pub >>=-eq-ok {ℓ κ} :
    {A : Type ℓ} {B : Type κ} (first : Result A) (continue : A → Result B) {result : B}
    → (first >>= continue) ≡ ok result
    → (value : A) × (first ≡ ok value) × (continue value ≡ ok result)
>>=-eq-ok (err reason) continue returns = cc
>>=-eq-ok (ok value) continue returns = (value, refl, returns)

pub ok-injective {ℓ} : {A : Type ℓ} (a b : A) → ok a ≡ ok b → a ≡ b
ok-injective a b = ap (λ r. elim r [ ok x ↦ x | err e ↦ a ])

abbrev pub ◌>>◌ {ℓ} : {B : Type ℓ} → (check : Result (Unit {0})) → (rest : Result B) → Result B
check >> rest = check >>= λ _. rest

abbrev pub min_lease_seconds : ℕ
min_lease_seconds = 5

abbrev pub max_lease_seconds : ℕ
max_lease_seconds = 300

abbrev pub max_retry_delay_seconds : ℕ
max_retry_delay_seconds = 3_600

abbrev pub max_attempts_limit : ℕ
max_attempts_limit = 100

-- `timedelta(seconds=n)`
abbrev pub seconds : ℕ → ℕ
seconds n = n * 1_000_000

unfoldable pub parse_uuid : UuidText → Error → Result ℕ
parse_uuid (some n) reason = ok n
parse_uuid none reason = err reason

unfoldable pub validate_alias : String → Error → Result (Unit {0})
validate_alias value reason = guard (is_safe_alias value) reason

unfoldable pub validate_lease_seconds : ℕ → Result (Unit {0})
validate_lease_seconds value =
    guard (leb min_lease_seconds value && leb value max_lease_seconds) lease_seconds_invalid

-- `PostgresRunJobQueue.__post_init__`: the queue is built with this many attempts, or not at all.
unfoldable pub new_queue : ℕ → Result ℕ
new_queue max_attempts = do
  guard (leb 1 max_attempts && leb max_attempts max_attempts_limit) max_attempts_invalid
  ok max_attempts
