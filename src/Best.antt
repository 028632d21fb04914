-- ===== src/Best.antt =====
-- crates/best: the telegrams, the gate and the bridge to bare UDS, and the decoder, the machine and the
-- engine that run the jobs of a file.
pub mod Opcode
pub mod Decode
pub mod Machine
pub mod Exec
pub mod Integers
pub mod Branches
pub mod Moves
pub mod Products
pub mod Texts
pub mod Results
pub mod Floats
pub mod Convert
pub mod Strings
pub mod Context
pub mod Tables
pub mod Step
pub mod Engine
pub mod Telegram
pub mod Exchange
pub mod Gate
pub mod Bridge
