-- ===== src/Compaction.antt =====
-- scripts/compact_batches.py. `Sources` selects and checks the batches, `Existing` decides whether an
-- earlier compaction can be reused, `Chunks` packs the batches into bounded files, `Process` is the
-- whole.
pub mod Sources
pub mod Existing
pub mod Chunks
pub mod Packing
pub mod Loop
pub mod Process
