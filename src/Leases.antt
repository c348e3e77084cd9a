-- ===== src/Leases.antt =====
-- The database that the queue (src/voxbench/control_plane/job_queue.py) and the run repository
-- (run_api.py) share, and the transactions that workers and clients make on it in any order.
pub mod Steps
pub mod Rows
pub mod Moves
pub mod Validity
pub mod Terminal
pub mod Fencing
pub mod Holding
pub mod Held
