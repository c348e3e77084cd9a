-- ===== src/Registry.antt =====
-- Configurations and their overlays: src/voxbench/registry/merge.py and the resolution of parents in
-- src/voxbench/registry/service.py.
pub mod Json
pub mod Merge
pub mod Resolve
pub mod Schema
pub mod Validate
