-- ===== src/Best/Engine.antt =====
-- crates/best/src/engine.rs: a job of a file, run to its results. The exchange with the ECU is a
-- parameter with its state; a pause changes nothing that is modelled.
pub mod Loading
pub mod Loop
pub mod Safety
pub mod Soundness
use klartext.Prelude.{
  ℕ, zero, suc, ◌+◌, List, [], ◌∷◌, Option, none, some, ◌==◌, if◌then◌else◌, Result, ok, err, panic,
}
use klartext.Sgbd.Cp1252.{Text}
use klartext.Sgbd.Program.{Prg, job_bytecode}
use klartext.Best.Exchange.{ExchangeError, UdsExchange}
use klartext.Best.Decode.{DecodeError, Operand, Op, decode_job}
use klartext.Best.Machine.{Value, bytes, Machine, new}
use klartext.Best.Exec.{
  ExecError, Flow, next, jumped, end_of_job, exchange, wait, set_error, trap_bit_no_response,
  write_to,
}
use klartext.Best.Results.{ResultSet, new_results}
use klartext.Best.Floats.{F64}
use klartext.Best.Context.{ExecCtx, State}
use klartext.Best.Step.{step}

abbrev pub max_instructions : ℕ
max_instructions = 2000000

-- `Sgbd` belongs to opening a file.
pub data RunError : Type 0 where
  job_not_found : Text → RunError
  decode_failed : DecodeError → RunError
  exec_failed : ExecError → RunError
  exchange_failed : ExchangeError → RunError
  bad_pc loop_bound : ℕ → RunError

-- The map from the offsets to the instructions, where a later one replaces an earlier one.
unfoldable pub op_at : List Op → ℕ → Option Op
op_at [] pc = none
op_at (op ∷ ops) pc = elim (op_at ops pc) [
  | some later ↦ some later
  | none ↦ if op.offset == pc then some op else none
]

-- A write of the answer to its destination.
abbrev pub answer_to : {F : Type 0} → Operand → List ℕ → Machine F → Result RunError (Machine F)
answer_to dest response m =
    let written = write_to dest (bytes response) m in
    elim written.0 [ ok u ↦ ok written.1 | err e ↦ err (exec_failed e) | panic ↦ panic ]

-- What an answer of the exchange makes of the machine.
unfoldable pub answered :
    {F : Type 0} → Operand → Result ExchangeError (List ℕ) → Machine F → Result RunError (Machine F)
answered dest (ok response) m = answer_to dest response m
answered dest (err e) m =
    let recorded = set_error trap_bit_no_response m in
    elim recorded.0 [
      | ok u ↦ answer_to dest [] recorded.1
      | err t ↦ err (exchange_failed e)
      | panic ↦ panic
    ]
answered dest panic m = panic

-- One round of the loop: the next one starts from a state, or the run ends.
pub data Turn (F S : Type 0) : Type 0 where
  again : State F → S → Turn F S
  ended : Result RunError (ResultSet F) → S → Turn F S

module _ (f64 : F64) {S : Type 0} (request : UdsExchange S) (target : ℕ) (ops : List Op) where
  -- A write of the answer leaves the machine, or ends the run.
  abbrev pub resumed : ExecCtx f64.F → S → Result RunError (Machine f64.F) → Turn f64.F S
  resumed ctx x (ok m) = again (m, ctx) x
  resumed ctx x (err e) = ended (err e) x
  resumed ctx x panic = ended panic x

  -- The arms of the `match` on the flow.
  unfoldable pub acted : Flow → State f64.F → S → Turn f64.F S
  unfolding answered
  acted next s x = again s x
  acted jumped s x = again s x
  acted (wait seconds) s x = again s x
  acted end_of_job s x = ended (ok s.1.results) x
  acted (exchange frame dest) s x =
      let answer = request x target frame in resumed s.1 answer.1 (answered dest answer.0 s.0)

  abbrev pub stepped : Result ExecError Flow × State f64.F → S → Turn f64.F S
  stepped (ok flow, s) x = acted flow s x
  stepped (err e, s) x = ended (err (exec_failed e)) x
  stepped (panic, s) x = ended panic x

  abbrev pub fetched : Option Op → State f64.F → S → Turn f64.F S
  fetched none s x = ended (err (bad_pc s.0.pc)) x
  fetched (some op) s x = stepped (step f64 op s) x

  unfoldable pub turn : State f64.F → S → Turn f64.F S
  unfolding step op_at acted
  turn s x = fetched (op_at ops s.0.pc) s x

  -- The loop, for at most `fuel` instructions.
  unfoldable pub run_loop : (fuel : ℕ) → State f64.F → S → Result RunError (ResultSet f64.F) × S
  unfolding turn
  run_loop zero s x = (err (loop_bound max_instructions), x)
  run_loop (suc fuel) s x = elim (turn s x) [
    | again s' x' ↦ run_loop fuel s' x'
    | ended result x' ↦ (result, x')
  ]

abbrev pub start : (f64 : F64) → Prg → List ℕ → State f64.F
start f64 prg args = (
  new f64.zero_float,
  record {
    results = new_results;
    args = args;
    tables = prg.tables;
    current_table = none;
    current_row = none;
  },
)

module _ (f64 : F64) {S : Type 0} where
  -- `run_job`, over the state of the exchange.
  unfoldable pub run_job :
      Prg
      → Text
      → (target : ℕ) → (args : List ℕ) → UdsExchange S
      → S
      → Result RunError (ResultSet f64.F) × S
  unfolding job_bytecode decode_job run_loop
  run_job prg name target args request x = elim (job_bytecode prg name) [
    | none ↦ (err (job_not_found name), x)
    | some code ↦ elim (decode_job code) [
      | none ↦ (panic, x)
      | some decoded ↦ elim decoded [
        | ok ops ↦ run_loop f64 request target ops max_instructions (start f64 prg args) x
        | err e ↦ (err (decode_failed e), x)
        | panic ↦ (panic, x)
      ]
    ]
  ]
