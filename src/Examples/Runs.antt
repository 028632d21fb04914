-- ===== src/Examples/Runs.antt =====
-- crates/best/src/engine.rs: a job that asks an ECU for the software version, run to its results.
use klartext.Prelude.{
  ℕ, ◌+◌, ◌≡◌, ◌≢◌, panic, some, refl, true, List, [], ◌∷◌, ◌++◌, All, IsByte, none, ok, arith,
  length, to_le_bytes, get_range?,
}
use klartext.Sgbd.Cp1252.{Text, decode}
use klartext.Sgbd.Program.{Prg, Table, parse, job_bytecode}
use klartext.Best.Telegram.{header, header_and_length, encode}
use klartext.Best.Exchange.{ExchangeError, UdsExchange, MockExchange, mock_request}
use klartext.Best.Gate.{read_only}
use klartext.Best.Bridge.{BareUdsTransport}
use klartext.Best.Bridge.Targets.{CallTo, live-ne-panic}
use klartext.Best.Bridge.Safety.{CallPermitted, live}
use klartext.Best.Decode.{Op, reg, bank_s, str, absent}
use klartext.Best.Decode.Operands.{OpInRange}
use klartext.Best.Decode.Reads.{bank_size}
use klartext.Best.Results.{ResultSet, binary}
use klartext.Best.Floats.{F64}
use klartext.Best.Context.{State}
use klartext.Best.Context.Keeps.{IsState}
use klartext.Best.Exec.Keeps.{Post, FlowInRange}
use klartext.Best.Texts.{hex_digit, nibbles, hex_to_bytes}
use klartext.Best.Strings.{before_nul, terminated, read_string}
use klartext.Best.Strings.RoundTrip.{hex_to_bytes-decode}
use klartext.Best.Tables.{selected_table, column_index, key_row, op_tabseek}
use klartext.Best.Tables.Seek.{Sought, op_tabseek-Sought}
use klartext.Best.Step.{step}
use klartext.Best.Step.Keeps.{step-IsState}
use klartext.Best.Engine.{RunError, run_job, start}
use klartext.Best.Engine.Safety.{run_job-permitted}
use klartext.Best.Engine.Soundness.{Ended, run_job-Ended, start-IsState}

-- Floats of which a job without them asks nothing.
abbrev no_floats : F64
no_floats = record {
  F = Unit;
  zero_float = tt;
  one = tt;
  ten = tt;
  add = λ a b. tt;
  sub = λ a b. tt;
  mul = λ a b. tt;
  div = λ a b. tt;
  powf = λ a b. tt;
  powi = λ a n. tt;
  abs = λ a. tt;
  log10 = λ a. tt;
  floor = λ a. tt;
  round = λ a. tt;
  equal = λ a b. true;
  less = λ a b. true;
  is_finite = λ a. true;
  of_i32 = λ n. tt;
  to_i64 = λ a. 0;
  of_f32_bytes = λ bytes. tt;
  of_f64_bytes = λ bytes. tt;
  parse_float = λ text. none;
  display = λ a. [];
}

abbrev telegram : List ℕ
telegram = encode 0x12 0xf1 (0x22 ∷ 0xf1 ∷ 0x90 ∷ [])

-- xsend S1, the telegram; ergy "R", S1; eoj.
abbrev code : List ℕ
code =
    0x2a ∷ 0x18 ∷ 0x1d ∷ to_le_bytes 2 (length telegram)
    ++ telegram
    ++ 0x3f ∷ 0x81 ∷ 1 ∷ 0 ∷ 0x52 ∷ 0x1d ∷ 0x1d ∷ 0 ∷ []

abbrev program : Prg
program = record {
  tables = [];
  jobs = (0x41 ∷ []) ∷ [];
  deob = code;
  job_offsets = (0x41 ∷ [], 0) ∷ [];
}

abbrev answer : List ℕ
answer = 0x62 ∷ 0xf1 ∷ 0x90 ∷ 7 ∷ []

abbrev canned : MockExchange
canned = (telegram, answer) ∷ []

run_test :
    run_job no_floats program (0x41 ∷ []) 0x12 [] mock_request canned
    ≡ (ok record { sets = ((0x52 ∷ [], binary answer) ∷ []) ∷ [] }, canned)
unfolding run_job mock_request encode get_range? header klartext.Best.Decode.decode_job
    klartext.Best.Decode.decode_loop klartext.Best.Decode.decode_one klartext.Best.Decode.position
    klartext.Best.Decode.read_u8 klartext.Best.Decode.validate klartext.Best.Opcode.info
    klartext.Best.Decode.from_nibble klartext.Best.Decode.read_operand klartext.Best.Decode.read_reg
    klartext.Best.Decode.read_register klartext.Best.Decode.register
    klartext.Best.Decode.read_u16_le klartext.Best.Decode.read_bytes klartext.Best.Machine.read
    klartext.Best.Exchange.get klartext.Best.Exchange.bytes_eq klartext.Best.Engine.run_loop
    klartext.Best.Engine.turn klartext.Best.Engine.op_at klartext.Best.Engine.acted
    klartext.Best.Engine.answered klartext.Best.Step.step klartext.Best.Step.fold_index_increments
    klartext.Best.Step.folded klartext.Best.Step.dispatch klartext.Best.Step.integer_arms
    klartext.Best.Step.transfer_arms klartext.Best.Step.text_arms klartext.Best.Step.context_arms
    klartext.Best.Strings.op_xsend klartext.Best.Context.op_ergy klartext.Best.Strings.read_string
    klartext.Best.Strings.before_nul klartext.Best.Context.push_result
    klartext.Best.Results.push_named klartext.Best.Machine.write klartext.Best.Machine.write_reg
    klartext.Best.Exec.read_source klartext.Best.Moves.read_bytes klartext.Best.Machine.read_reg
    klartext.Best.Telegram.header_and_length klartext.Sgbd.Program.job_bytecode
    klartext.Sgbd.Program.find_offset klartext.Sgbd.Program.next_offset klartext.Sgbd.Cp1252.decode
    klartext.Best.Telegram.checksum
run_test = refl

code-bytes : All IsByte code
unfolding encode header header_and_length klartext.Best.Telegram.checksum
code-bytes = ground arith

-- An ECU that answers a read of the version.
abbrev ecu : BareUdsTransport ℕ
ecu n target uds = (ok answer, n + 1)

ecu-answers : (n target : ℕ) (uds : List ℕ) → (ecu n target uds).0 ≢ panic
ecu-answers n target uds e = cc

run_job-permitted_example :
    let calls = (run_job no_floats program (0x41 ∷ []) 0x12 [] (live ecu read_only) ([], 0)).1.0 in
    All (CallTo 0x12) calls × All (CallPermitted read_only) calls
run_job-permitted_example = run_job-permitted no_floats program (0x41 ∷ []) 0x12 [] ecu read_only 0

run_job-Ended_example :
    Ended program
      (0x41 ∷ [])
      (live ecu read_only)
      0x12
      (run_job no_floats program (0x41 ∷ []) 0x12 [] (live ecu read_only) ([], 0)).0
run_job-Ended_example =
    run_job-Ended no_floats program (0x41 ∷ []) 0x12 [] (live ecu read_only) ([], 0) code-bytes
      (live-ne-panic ecu read_only ecu-answers)

abbrev store : Op
store = record {
  offset = 0;
  len = 6;
  byte = 0x3f;
  mode_byte = 0x81;
  arg0 = str (0x52 ∷ []);
  arg1 = reg bank_s 1;
}

step-IsState_example :
    let out = step no_floats store (start no_floats program []) in
    IsState out.1 × Post FlowInRange out.0
unfolding OpInRange bank_size
step-IsState_example =
    step-IsState no_floats store (start no_floats program []) (tt, omega arith)
      (start-IsState no_floats program [])

hex_to_bytes-decode_example :
    hex_to_bytes (decode (before_nul (terminated (nibbles hex_digit answer)))) ≡ some answer
hex_to_bytes-decode_example = hex_to_bytes-decode answer (ground arith)

abbrev units : Table
units = record {
  name = 0x54 ∷ [];
  columns = (0x49 ∷ 0x44 ∷ []) ∷ (0x56 ∷ []) ∷ [];
  rows =
      ((0x41 ∷ []) ∷ (0x31 ∷ []) ∷ [])
      ∷ ((0x42 ∷ []) ∷ (0x32 ∷ []) ∷ [])
      ∷ ((0x62 ∷ []) ∷ (0x33 ∷ []) ∷ [])
      ∷ [];
}

-- tabseek "id", "b"
abbrev seek : Op
seek = record {
  offset = 0;
  len = 9;
  byte = 0x7c;
  mode_byte = 0x88;
  arg0 = str (0x69 ∷ 0x64 ∷ []);
  arg1 = str (0x62 ∷ []);
}

abbrev selected : State Unit
selected =
    let s = start no_floats program [] in
    (s.0, record s.1 { tables = units ∷ []; current_table = some 0 })

op_tabseek-Sought_example :
    Sought (key_row 0 (0x62 ∷ [])) units.rows selected (op_tabseek seek selected)
unfolding selected_table read_string column_index decode klartext.Best.Machine.read
op_tabseek-Sought_example =
    op_tabseek-Sought seek selected units (0x69 ∷ 0x64 ∷ []) (0x62 ∷ []) 0 selected.0 selected.0
      refl refl refl refl (ground arith)
