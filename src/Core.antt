-- ===== src/Core.antt =====
-- The core that the protocols share (conpot/core).
pub mod Databus
pub mod Session
