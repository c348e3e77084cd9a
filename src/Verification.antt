-- ===== src/Verification.antt =====
-- The full-reference scores of src/voxbench/verification and their aggregation.
pub mod Scores
pub mod Tallies
pub mod Aggregation
pub mod Regression
