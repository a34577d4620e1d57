-- ===== src/Store.antt =====
-- IMongoStore: the blocks of the resources and of the logs of the tripulantes ("bitácoras").
pub mod State
pub mod Saving
pub mod Erasing
pub mod Bitacora
pub mod Tasks
pub mod Repair
pub mod Handler
mod Tests
