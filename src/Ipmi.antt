-- ===== src/Ipmi.antt =====
-- The IPMI protocol (conpot/protocols/ipmi).
pub mod State
pub mod Payload
pub mod Session
pub mod Users
pub mod Commands
pub mod Handshake
pub mod Server
