-- ===== src/Client.antt =====
-- crates/client: the session over one HSFZ connection.
pub mod Session
pub mod Operations
pub mod Scan
