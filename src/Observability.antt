-- ===== src/Observability.antt =====
-- The observation hooks of src/voxbench/observability/observer.py: what an observer collects, how
-- its batches are sent, and what it reads in RTP packets and in PCM audio.
pub mod Records
pub mod Batches
pub mod Pcm
pub mod Levels
pub mod Observer
pub mod References
pub mod Rtp
pub mod Tap
