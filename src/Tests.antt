-- ===== src/Tests.antt =====
-- Runs at fixed inputs, and each property at an input that meets its hypotheses.
mod Queue
mod History
mod Execution
mod Audio
mod Configs
mod Pipelines
mod Wire
mod Playing
mod Observing
mod Sessions
mod Losses
mod Scoring
mod Exchanging
