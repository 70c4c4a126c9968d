-- ===== src/Tests.antt =====
-- The theorems at concrete inputs that meet their hypotheses, and runs of the definitions.
mod Kamstrup
mod S7comm
mod Modbus
mod Core
mod Management
mod Guardian
mod Ipmi
mod Http
