-- ===== src/Heartbeat.antt =====
-- `_LeaseHeartbeat` of src/voxbench/control_plane/run_worker.py: the thread that renews a lease while
-- its run is executed.
pub mod Kept
use voxbench.Base.{Bool, true, false, not, ◌||◌, Option, none, some, List, [], ◌∷◌, if◌then◌else◌}

-- One round of the loop: whether `_stop` is set by the end of the wait, and what `heartbeat` answers
-- (`none` if the queue is unavailable).
pub record Beat : Type 0 where
  pub stop_set : Bool
  pub answer : Option Bool

-- `active` after the call.
abbrev pub is_active_answer : Option Bool → Bool
is_active_answer none = false
is_active_answer (some active) = active

-- `_run` over the rounds that come: whether `_lost` is set.
unfoldable pub beat_loop : List Beat → Bool
beat_loop [] = false
beat_loop (b ∷ beats) =
    let rest = beat_loop beats in
    if b.stop_set then false else (if is_active_answer b.answer then rest else true)

-- `stop`: `alive` is whether the thread is alive still after the join with its timeout, which sets
-- `_lost` too. The answer is whether the lease was kept.
unfoldable pub stop_heartbeat : Bool → List Beat → Bool
unfolding beat_loop
stop_heartbeat alive beats = not (beat_loop beats || alive)
