-- ===== src/Hsfz.antt =====
-- crates/hsfz: the frame codec and the reader of one frame.
pub mod Frame
pub mod Reader
