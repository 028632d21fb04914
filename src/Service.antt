-- ===== src/Service.antt =====
-- crates/service: running a service function of the catalog on an ECU.
pub mod Phase
pub mod Grouping
pub mod Precondition
pub mod Runner
