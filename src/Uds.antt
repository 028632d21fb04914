-- ===== src/Uds.antt =====
-- crates/uds: the message layer, pure functions from requests to bytes and from bytes to values.
pub mod Sid
pub mod Nrc
pub mod Response
pub mod Service
pub mod Dtc
