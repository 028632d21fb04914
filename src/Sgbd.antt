-- ===== src/Sgbd.antt =====
-- crates/sgbd: the text encoding and the parser of job files.
pub mod Cp1252
pub mod Reads
pub mod Program
