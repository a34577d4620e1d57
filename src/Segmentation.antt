-- ===== src/Segmentation.antt =====
-- MiRAMHQ under the segmentation scheme: the parts of memory.c between BEGIN and END SEGMENTATION,
-- and `segmentation_handler` of main.c.
pub mod State
pub mod Table
pub mod Holes
pub mod Compaction
pub mod Records
pub mod Tasks
pub mod Patota
pub mod Handler
mod Tests
pub mod Regions
pub mod Invariant
