-- ===== src/Examples.antt =====
-- The theorems at concrete inputs, and a few runs of the code.
mod Live
mod Telegrams
mod Answers
mod Frames
mod Sessions
mod Functions
mod Programs
mod Jobs
mod Scans
mod Files
mod Runs
