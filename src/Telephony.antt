-- ===== src/Telephony.antt =====
-- The AudioSocket protocol of src/voxbench/telephony.
pub mod Frames
pub mod Playback
