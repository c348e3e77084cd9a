-- ===== src/JobQueue.antt =====
-- The lease queue of persistent run jobs: src/voxbench/control_plane/job_queue.py over the table
-- `run_jobs`. An operation is one transaction: it takes the table and returns the table with its
-- reply. The rows, the SQL statements and the operations, then what is proved of them.
pub mod Row
pub mod Statements
pub mod Operations
pub mod Rows
pub mod Invariant
pub mod Outcomes
pub mod Updates
pub mod Kept
pub mod Order
pub mod Claiming
pub mod Replacing
pub mod Replies
pub mod Enqueue
