-- ===== src/Lib.antt =====
-- klartext: a diagnostic tool for cars that speak UDS over HSFZ. The program sends requests to the
-- ECUs of a car through one gateway, decodes their answers, runs the manufacturer's jobs behind a
-- gate, and drives service functions through a lifecycle with a teardown.
--
-- The parts and their files:
-- Best/Telegram: crates/best/src/telegram.rs, the BMW-FAST telegrams of a job (`encode`, `decode`,
--   `decode_request`, `peek_sid`). Best/Gate: gate.rs, the policy on service bytes; Best/Bridge:
--   bridge.rs, from telegrams to bare UDS; Best/Exchange: exchange.rs, the seam between them. A
--   trait object is a function on the state behind it. Best/Bridge/Safety puts the gate over the
--   bridge over a recorded transport, which is how the program builds the live stack.
-- Best/Opcode and Best/Decode: crates/best/src/opcode.rs and decode.rs, the table of opcodes and the
--   decoder of a job's bytecode (`decode_one`, `decode_job`), a reader as a state with errors.
-- Best/Machine: crates/best/src/machine.rs, the registers of the job machine and the access to
--   operands. The three integer banks are one file of 32 bytes; the type of floats is a parameter, and
--   an `i64` is the number of its bits. Best/Exec: exec.rs, the errors, the flags (`sub_flags` is what
--   `comp` and `subb` set), and the reads and writes that the instructions share. Best/Integers: the
--   instructions that compare, calculate and push integers; Best/Branches: the tests (`taken`).
--   A decoded operand goes to the machine as it is. Best/Moves: exec.rs, the
--   instructions that move, clear, reverse and shift; Best/Products: those that multiply and divide;
--   Best/Floats: those on floats, whose `f64` is a parameter, a record of the operations that the code
--   calls; Best/Convert: the conversions, the error traps and the peek at the stack; Best/Strings: those
--   on strings and buffers; Best/Texts: the parsing and printing of numbers that these use.
--   Best/Context: results and arguments; Best/Tables: the cursor in a table; Best/Step: `step`, with its
--   `match` in four groups of arms. The `Keeps` of each folder is about the invariants of an
--   instruction's state, by `search` on the rules of Best/Exec/Keeps.
-- Best/Results: crates/best/src/result.rs, the result sets. Best/Engine: engine.rs, the run of a job
--   from the file's bytes to its results, over an exchange with a state. The map from offsets to
--   instructions is a search in their list; a pause changes nothing.
-- Hsfz/Frame and Hsfz/Reader: crates/hsfz/src/frame.rs, the frames of the wire, and reading and
--   writing them on a socket. The socket is a parameter (`ByteReader`, `ByteWriter`), with the
--   documented laws of the exact read and the complete write.
-- Uds: crates/uds/src. Sid (lib.rs), Nrc (nrc.rs), Service (the request builders of service.rs),
--   Response (the shared checks, and identity.rs), Dtc (the decoders of dtc.rs).
-- Client/Session: crates/client/src/session.rs, the table of pending requests and the channels as
--   one state, `Link`, on which a request, its guard and the reader task are steps.
-- Client/Operations: crates/client/src/client.rs, the client's reads, clears and resets over a session
--   (`Seam`), which answers requests and keeps their record. Client/Scan: scan.rs, the verified clear
--   of several ECUs and the resets after it.
-- Sgbd: crates/sgbd/src. Reads and Program (prg.rs), the parser of job files over the bytes of a file,
--   and its queries of tables and jobs; Cp1252 (cp1252.rs), their text.
-- Service: crates/service/src. Phase and Grouping (phase.rs), Precondition (precondition.rs), Runner
--   (runner.rs). The job runner, the reader of measurements and `f64` are parameters.
-- Prelude: results, byte strings and checked reads; Examples: concrete inputs.
--
-- Numbers are natural numbers with the wrap-around of the source written out. `Result` has a third
-- value, `panic`, for an index out of bounds. Lengths up to 65535 bytes of a telegram and 65536 bytes
-- of a frame's body are those that the formats allow. The reader task runs on fuel, and one turn for
-- each frame and one for the end are enough. The generations of a session are 64-bit numbers, and
-- the interleavings are those of fewer than 2^64 requests.
--
-- The decoder runs on as much fuel as the job has bytes, of which each instruction takes two or more.
--
-- The run of a job has the source's own bound of 2,000,000 instructions, whose end is an error. The
-- printing of a number below 2^32 runs on ten decimal or eight hexadecimal digits, as many as it has.
--
-- Not modelled: the arithmetic of `f64`, opening a file, the catalog in its database, discovery and
-- connecting, the concurrent scan, the keepalive task, the front ends, and texts for display.
pub mod Prelude
pub mod Examples
pub mod Best
pub mod Hsfz
pub mod Uds
pub mod Service
pub mod Sgbd
pub mod Client
