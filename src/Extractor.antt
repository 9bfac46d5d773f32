-- ===== src/Extractor.antt =====
-- udyam_extractor.py.
pub mod Env
pub mod Manifest
pub mod Checkpoints
pub mod Frame
pub mod Fetch
pub mod Batches
pub mod State
pub mod States
