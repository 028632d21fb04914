-- ===== src/Best/Engine/Soundness.antt =====
-- crates/best/src/engine.rs: how a run ends.
use klartext.Prelude.{
  ℕ, ◌<◌, ◌≡◌, refl, Option, none, some, List, [], length, All, IsByte, Result, ok, err, panic,
  arith, replicate-All, length-replicate,
}
use klartext.Sgbd.Cp1252.{Text}
use klartext.Sgbd.Program.{Prg, job_bytecode}
use klartext.Best.Exchange.{UdsExchange}
use klartext.Best.Decode.{DecodeError, Op, decode_job}
use klartext.Best.Exec.{}
use klartext.Best.Exec.Keeps.{Sound}
use klartext.Best.Results.{ResultSet}
use klartext.Best.Floats.{F64}
use klartext.Best.Context.Keeps.{IsState}
use klartext.Best.Engine.Loading.{Decoded, decode_job-Decoded, job_bytecode-bytes}
use klartext.Best.Engine.{
  RunError, job_not_found, decode_failed, exec_failed, exchange_failed, bad_pc, loop_bound, op_at,
  run_loop, run_job, start, max_instructions,
}
use klartext.Best.Engine.Loop.{Gave, Answers, Stopped, run_loop-Sound}

-- How a run ends: with results that have a current set, or for one of the reasons that the errors name.
abbrev pub Ended :
    {S F : Type 0}
    → Prg
    → Text
    → UdsExchange S
    → (target : ℕ) → Result RunError (ResultSet F)
    → Type 0
Ended prg name request target (ok results) = 0 < length results.sets
Ended prg name request target (err (job_not_found n)) = (n ≡ name) × (job_bytecode prg name ≡ none)
Ended prg name request target (err (decode_failed e)) =
    (code : List ℕ) × (job_bytecode prg name ≡ some code) × (decode_job code ≡ some (err e))
Ended prg name request target (err (exec_failed e)) = Sound e
Ended prg name request target (err (exchange_failed e)) = Gave request target e
Ended prg name request target (err (bad_pc pc)) =
    (code : List ℕ) × (ops : List Op) × (job_bytecode prg name ≡ some code)
    × (decode_job code ≡ some (ok ops))
    × (op_at ops pc ≡ none)
Ended prg name request target (err (loop_bound n)) = n ≡ max_instructions
Ended prg name request target panic = ⊥

pub start-IsState : (f64 : F64) (prg : Prg) (args : List ℕ) → IsState (start f64 prg args)
start-IsState f64 prg args = record {
  machine_sizes = record {
    regs_size = length-replicate {A = ℕ} 32 0;
    regs_bytes = replicate-All IsByte 32 0 (omega arith);
    s_size = length-replicate {A = List ℕ} 16 [];
    f_size = length-replicate 8 f64.zero_float;
  };
  some_set = omega arith;
  cursor = refl;
}

-- Over an exchange that answers or fails, a run of any job of any file of bytes ends, and nothing aborts
-- the program. It ends with results that have a current set, or with an error: the file has no job of
-- the name, the job does not decode, an instruction fails for anything but a register out of range, the
-- exchange has given that error for a telegram to the ECU, the program counter is at no instruction of
-- the job, or the bound on the instructions is reached.
pub run_job-Ended :
    (f64 : F64) {S : Type 0} (prg : Prg) (name : Text) (target : ℕ) (args : List ℕ)
    (request : UdsExchange S) (x : S)
    → All IsByte prg.deob
    → Answers request
    → Ended prg name request target (run_job f64 prg name target args request x).0
unfolding run_job
run_job-Ended f64 {S} prg name target args request x b answers = go (job_bytecode prg name) refl
  where
    loaded :
        (code : List ℕ) (ops : List Op) (r : Result RunError (ResultSet f64.F))
        → job_bytecode prg name ≡ some code
        → decode_job code ≡ some (ok ops)
        → Stopped request target ops r
        → Ended prg name request target r
    loaded code ops (ok results) e d v = v
    loaded code ops (err (exec_failed x)) e d v = v
    loaded code ops (err (exchange_failed x)) e d v = v
    loaded code ops (err (bad_pc pc)) e d v = (code, ops, e, d, v)
    loaded code ops (err (loop_bound n)) e d v = v
    loaded code ops (err (job_not_found n)) e d v = absurd v
    loaded code ops (err (decode_failed x)) e d v = absurd v
    loaded code ops panic e d v = v

    decoded :
        (code : List ℕ)
        → job_bytecode prg name ≡ some code
        → (d : Option (Result DecodeError (List Op))) → Decoded d
        → decode_job code ≡ d
        → let out : Result RunError (ResultSet f64.F) × S = elim d [
          | none ↦ (panic, x)
          | some decoded ↦ elim decoded [
            | ok ops ↦ run_loop f64 request target ops max_instructions (start f64 prg args) x
            | err e ↦ (err (decode_failed e), x)
            | panic ↦ (panic, x)
          ]
        ] in
          Ended prg name request target out.0
    decoded code e none p q = p
    decoded code e (some (ok ops)) p q =
        loaded code ops (run_loop f64 request target ops max_instructions (start f64 prg args) x).0
          e q
          (run_loop-Sound f64 request answers target ops p max_instructions (start f64 prg args) x
            (start-IsState f64 prg args))
    decoded code e (some (err d)) p q = (code, e, q)
    decoded code e (some panic) p q = p

    go :
        (found : Option (List ℕ))
        → job_bytecode prg name ≡ found
        → let out : Result RunError (ResultSet f64.F) × S = elim found [
          | none ↦ (err (job_not_found name), x)
          | some code ↦ elim (decode_job code) [
            | none ↦ (panic, x)
            | some decoded ↦ elim decoded [
              | ok ops ↦ run_loop f64 request target ops max_instructions (start f64 prg args) x
              | err e ↦ (err (decode_failed e), x)
              | panic ↦ (panic, x)
            ]
          ]
        ] in
          Ended prg name request target out.0
    go none e = (refl, e)
    go (some code) e =
        decoded code e (decode_job code)
          (decode_job-Decoded code (job_bytecode-bytes prg name code b e)) refl
