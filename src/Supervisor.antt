-- ===== src/Supervisor.antt =====
-- `RunWorkerSupervisor` of src/voxbench/control_plane/run_worker.py: its loop over a worker, and its
-- thread. A wait in seconds is kept as milliseconds.
pub mod Counts
use voxbench.Base.{
  ℕ, suc, ◌+◌, Bool, true, false, ◌&&◌, Option, none, some, List, [], ◌∷◌, leb, if◌then◌else◌,
}
use voxbench.JobQueue.Row.{Result, ok, err}
use voxbench.RunWorker.{
  RunWorkerOutcome, idle, completed, retry_scheduled, failed, run_missing, lease_lost,
}

pub record RunWorkerTelemetry : Type 0 where
  pub running : Bool
  pub processed_total : ℕ
  pub error_total : ℕ
  pub lease_lost_total : ℕ

-- What one round of the loop meets: whether `_stop` is set when it is tested, what `run_one` gives
-- (`none` if it raises), and whether `_stop` is set by the end of a wait.
pub record Round : Type 0 where
  pub stop_set : Bool
  pub reported : Option RunWorkerOutcome
  pub stopped_waiting : Bool

pub record Totals : Type 0 where
  pub processed : ℕ
  pub errors : ℕ
  pub lost : ℕ

abbrev pub is_idle : RunWorkerOutcome → Bool
is_idle idle = true
is_idle _ = false

abbrev pub is_lost : RunWorkerOutcome → Bool
is_lost lease_lost = true
is_lost _ = false

-- The counters after a round in which `run_one` was called.
unfoldable pub count_round : Option RunWorkerOutcome → Totals → Totals
count_round none s = record s { errors = s.errors + 1 }
count_round (some outcome) s = if is_idle outcome then s else record s {
  processed = s.processed + 1;
  lost = if is_lost outcome then s.lost + 1 else s.lost;
}

-- The round ends in a wait, after an error, without work, or without the lease.
unfoldable pub waits : Option RunWorkerOutcome → Bool
waits none = true
waits (some idle) = true
waits (some lease_lost) = true
waits (some _) = false

-- `_run` over the rounds that it is given: the counters, and whether it has returned.
unfoldable pub run_loop : List Round → Totals → Totals × Bool
unfolding count_round waits
run_loop [] s = (s, false)
run_loop (r ∷ rounds) s =
    let s' = count_round r.reported s in
    let rest = run_loop rounds s' in
    if r.stop_set
    then (s, true)
    else (if waits r.reported && r.stopped_waiting then (s', true) else rest)

-- The supervisor: its thread, if it has one, and whether that is alive, and the counters.
pub record Supervisor : Type 0 where
  pub thread : Option Bool
  pub stop_requested : Bool
  pub totals : Totals

unfoldable pub is_running : Supervisor → Bool
is_running s = elim s.thread [ none ↦ false | some alive ↦ alive ]

unfoldable pub start : Supervisor → Supervisor × Bool
unfolding is_running
start s =
    if is_running s
    then (s, false)
    else (record s { thread = some true; stop_requested = false }, true)

unfoldable pub snapshot : Supervisor → RunWorkerTelemetry
unfolding is_running
snapshot s = record {
  running = is_running s;
  processed_total = s.totals.processed;
  error_total = s.totals.errors;
  lease_lost_total = s.totals.lost;
}

-- `alive`: whether the thread is alive still after the join with its timeout.
unfoldable pub stop : Bool → Supervisor → Supervisor × Bool
stop alive s = elim s.thread [
  | none ↦ (record s { stop_requested = true }, true)
  | some was ↦
      if was && alive
      then (record s { stop_requested = true; thread = some true }, false)
      else (record s { stop_requested = true; thread = none }, true)
]
