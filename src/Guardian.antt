-- ===== src/Guardian.antt =====
-- conpot/protocols/guardian_ast/guardian_ast_server.py: a tank gauge.
pub mod Tanks
pub mod Reports
pub mod Server
