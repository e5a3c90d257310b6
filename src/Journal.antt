-- ===== src/Journal.antt =====
-- The journaling layer of Metadata journaling service.
pub mod Ring
pub mod Pipeline
mod Tests
