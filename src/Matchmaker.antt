-- ===== src/Matchmaker.antt =====
-- apps/support/matchmaker_service.py: one item of the queue, and the drain of the whole queue.
pub mod Durable
pub mod Item
pub mod Drain
pub mod Effects
pub mod Turns
pub mod Bounds
mod Tests
