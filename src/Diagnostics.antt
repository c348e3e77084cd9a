-- ===== src/Diagnostics.antt =====
-- Diagnostics that the run API of src/voxbench/control_plane/run_api.py reads off a timeline.
pub mod RtpPackets
pub mod PacketReading
