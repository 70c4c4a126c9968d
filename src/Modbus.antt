-- ===== src/Modbus.antt =====
-- The Modbus protocol (conpot/protocols/modbus).
pub mod Memory
pub mod Slave
pub mod SlaveDb
pub mod Server
