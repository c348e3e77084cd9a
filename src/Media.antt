-- ===== src/Media.antt =====
-- The audio formats of src/voxbench/media.
pub mod Mulaw
pub mod Resampler
