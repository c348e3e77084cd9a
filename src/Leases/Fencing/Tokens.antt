-- ===== src/Leases/Fencing/Tokens.antt =====
-- A lease token that a job has lost never comes back to it.
use voxbench.Base.{ℕ, ◌≢◌, sym, Option, none, some, List, All-mem, Memᴰ, some_inj}
use voxbench.JobQueue.Row.{RunJob}
use voxbench.JobQueue.Statements.{expire}
use voxbench.JobQueue.Operations.{lease_row, extend_row, close_row, fail_row}
use voxbench.JobQueue.Invariant.{IsValid}
use voxbench.JobQueue.Rows.{job}
use voxbench.Repository.{finish_row}
use voxbench.Leases.Rows.{
  RowStep, exhausts, leases, extends, closes, fails, finishes, RowSteps, stays, then_, JobSteps,
  moves, missing, added,
}
use voxbench.Leases.Moves.{Step-JobSteps}
use voxbench.Leases.Validity.{reach-IsValid}
use voxbench.Leases.Steps.{World, Step, Reach, here, next}

-- The job's row does not hold the token.
abbrev pub Lost : ℕ → Option RunJob → Type 0
Lost token none = Unit
Lost token (some row) = row.lease_token ≢ some token

module _ {R : Type 0} {m : ℕ} {issued : List ℕ} (k : ℕ) (drawn : Memᴰ k issued) where
  RowStep-Lost :
      {r s : RunJob} → RowStep R m issued r s → r.lease_token ≢ some k → s.lease_token ≢ some k
  unfolding expire lease_row extend_row close_row fail_row finish_row
  RowStep-Lost (exhausts now e) h q = cc
  RowStep-Lost (leases w token e now c fresh) h q =
      All-mem (λ x. x ≢ token) issued fresh drawn (sym (some_inj token k q))
  RowStep-Lost (extends j t now w e a) h q = h q
  RowStep-Lost (closes j t now w a) h q = cc
  RowStep-Lost (fails j t now w al re av a) h q = cc
  RowStep-Lost (finishes j i t now w run a) h q = cc

  RowSteps-Lost :
      {r s : RunJob} → RowSteps R m issued r s → r.lease_token ≢ some k → s.lease_token ≢ some k
  RowSteps-Lost stays h = h
  RowSteps-Lost (then_ p x) h = RowStep-Lost x (RowSteps-Lost p h)

  JobSteps-Lost : {o o' : Option RunJob} → JobSteps R m issued o o' → Lost k o → Lost k o'
  JobSteps-Lost (moves p) h = RowSteps-Lost p h
  JobSteps-Lost missing h = tt
  JobSteps-Lost (added a b c p) h = RowSteps-Lost p (λ q. cc)

pub step_drawn :
    {R : Type 0} {m : ℕ} {w u : World R} {k : ℕ} → Step m w u → Memᴰ k w.issued → Memᴰ k u.issued
step_drawn (Step.enqueues a b c d e f g h i j) x = x
step_drawn (Step.claims a b c d e f g h i) x = Memᴰ.tail x
step_drawn (Step.beats a b c d e f g) x = x
step_drawn (Step.completes a b c d e f) x = x
step_drawn (Step.fails a b c d e f g h i) x = x
step_drawn (Step.saves a b c d e f g h i) x = x
step_drawn (Step.commits a b c d e f g) x = x

module _ {R : Type 0} {m : ℕ} {w : World R} where
  reach_drawn : {u : World R} {k : ℕ} → Reach m w u → Memᴰ k w.issued → Memᴰ k u.issued
  reach_drawn here x = x
  reach_drawn (next r st) x = step_drawn st (reach_drawn r x)

  -- A token that was drawn and that the job has lost never comes back to it.
  pub reach-Lost :
      {u : World R} (i k : ℕ)
      → IsValid m w.db.jobs
      → Memᴰ k w.issued
      → Lost k (job i w.db.jobs)
      → Reach m w u
      → Lost k (job i u.db.jobs)
  reach-Lost i k v drawn h here = h
  reach-Lost i k v drawn h (next {u = x} r st) =
      JobSteps-Lost {R = R} {m = m} {issued = x.issued} k (reach_drawn r drawn)
        (Step-JobSteps m i st (reach-IsValid m r v)) (reach-Lost i k v drawn h r)
