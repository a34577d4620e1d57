-- ===== src/Paging.antt =====
-- MiRAMHQ under the paging scheme: the part of memory.c up to BEGIN SEGMENTATION, and
-- `setup_pagination` and `pagination_handler` of main.c.
pub mod State
pub mod Replacement
pub mod Frames
pub mod Saving
pub mod Pages
pub mod Removal
pub mod Tasks
pub mod Handler
mod Tests
