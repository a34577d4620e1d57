-- ===== src/Discordiador.antt =====
-- The Discordiador.
pub mod State
pub mod Tripulante
pub mod Planner
pub mod Patotas
pub mod Console
pub mod Threads
pub mod Quiet
pub mod Queues
pub mod Turns
mod Tests
