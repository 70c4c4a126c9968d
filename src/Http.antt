-- ===== src/Http.antt =====
-- The HTTP server (conpot/protocols/http).
pub mod State
pub mod Config
pub mod Wire
pub mod Template
pub mod Load
pub mod Handlers
