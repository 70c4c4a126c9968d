-- ===== src/Kamstrup.antt =====
-- The Kamstrup meter protocol (conpot/protocols/kamstrup/meter_protocol).
pub mod Frame
pub mod Messages
pub mod RequestParser
pub mod Decoder
pub mod CommandResponder
pub mod Server
pub mod Management
