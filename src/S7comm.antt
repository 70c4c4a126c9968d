-- ===== src/S7comm.antt =====
-- The S7comm protocol (conpot/protocols/s7comm).
pub mod Tpkt
pub mod Cotp
pub mod S7
pub mod Server
