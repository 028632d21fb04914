-- ===== src/Best/Branches.antt =====
-- crates/best/src/exec.rs: the branches on the flags.
use Prim.Native.String.{String}
use klartext.Prelude.{
  ℕ, ◌+◌, ◌-◌, ◌%◌, ◌^◌, Bool, true, false, not, ◌&&◌, ◌||◌, ltb, ◌==◌, if◌then◌else◌, ok, err,
}
use klartext.Best.Decode.{imm, Op}
use klartext.Best.Machine.{Flags}
use klartext.Best.Exec.{Flow, invalid_operand, next, jumped, ExecM, lift, pure, as_u32}

-- `a == b` on `bool`.
abbrev pub same : Bool → Bool → Bool
same true b = b
same false b = not b

-- The tests of the branches on the flags, by their opcodes.
unfoldable pub taken : ℕ → Flags → Bool
taken byte flags =
    if byte == 0x0e
    then flags.c
    else if byte == 0x0f
    then not flags.c
    else if byte == 0x10
    then flags.z
    else if byte == 0x11
    then not flags.z
    else if byte == 0x12
    then flags.v
    else if byte == 0x13
    then not flags.v
    else if byte == 0x14
    then flags.s
    else if byte == 0x15
    then not flags.s
    else if byte == 0x5a
    then same flags.s flags.v && not flags.z
    else if byte == 0x5b
    then flags.z || same flags.s flags.v
    else if byte == 0x5c
    then not flags.z && not (same flags.s flags.v)
    else if byte == 0x5d
    then not (same flags.s flags.v) || flags.z
    else if byte == 0x5e
    then not flags.c && not flags.z
    else if byte == 0x5f
    then flags.c || flags.z
    else true

-- `raw as i32`, extended to 64 bits.
unfoldable pub sign_extended : ℕ → ℕ
sign_extended raw = if ltb (as_u32 raw) (2 ^ 31) then as_u32 raw else as_u32 raw + (2 ^ 64 - 2 ^ 32)

module _ {F : Type 0} where
  abbrev pub jump_by : ℕ → ExecM F Flow
  jump_by rel m = (ok jumped, record m { pc = (m.pc + rel) % 2 ^ 64 })

  unfoldable pub branch : String → Op → Bool → ExecM F Flow
  unfolding sign_extended
  branch mnemonic op false = pure next
  branch mnemonic op true = elim op.arg0 [
    | imm raw ↦ jump_by (sign_extended raw)
    | _ ↦ lift (err (invalid_operand mnemonic))
  ]
