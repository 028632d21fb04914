-- ===== src/Best/Strings.antt =====
-- crates/best/src/exec.rs: the instructions on the `S` buffers and on the texts in them.
pub mod Keeps
pub mod RoundTrip
use Prim.Native.String.{String}
use klartext.Prelude.{
  ℕ, zero, suc, ◌+◌, ◌-◌, ◌%◌, ◌^◌, Bool, true, false, not, ◌&&◌, ◌||◌, List, [], ◌∷◌, ◌++◌, Option,
  none, some, length, take, drop, leb, ltb, ◌==◌, if◌then◌else◌, Result, ok, err, panic, get_elem?,
}
use klartext.Sgbd.Cp1252.{Text, decode, encode}
use klartext.Sgbd.Program.{texts_equal, is_empty}
use klartext.Best.Decode.{
  RegBank, bank_b, bank_i, bank_l, bank_s, RegId, IndexArg, imm_index, reg_index, Operand, str, reg,
  indexed, Op,
}
use klartext.Best.Machine.{Flags, Value, int, float, bytes, MachineError, Machine, read}
use klartext.Best.Exec.{
  ExecError, machine, invalid_operand, Flow, next, exchange, ExecM, ◌>>=◌, lift, pure, arg_width,
  update_zs, as_u32, write_to, set_flags,
}
use klartext.Best.Moves.{read_bytes}

-- The bytes up to the first zero.
unfoldable pub before_nul : List ℕ → List ℕ
before_nul [] = []
before_nul (b ∷ rest) = if b == 0 then [] else b ∷ before_nul rest

-- The bytes of a text with a zero behind them, unless it is empty or ends in one.
unfoldable pub terminated : Text → List ℕ
terminated text =
    let b = encode text in
    elim (get_elem? b (length b - 1)) [
      | none ↦ b
      | some last ↦ if last == 0 then b else b ++ 0 ∷ []
    ]

-- What a range of positions leaves of a list whose first element is at `i`.
unfoldable pub erase_from : (i start end : ℕ) → List ℕ → List ℕ
erase_from i start end [] = []
erase_from i start end (b ∷ others) =
    let rest = erase_from (i + 1) start end others in
    if ltb i start || leb end i then b ∷ rest else rest

module _ {F : Type 0} where
  unfoldable pub read_string : String → Operand → ExecM F Text
  unfolding read_bytes before_nul decode
  read_string mnemonic op = do b ← read_bytes mnemonic op; pure (decode (before_nul b))

  unfoldable pub write_string : Operand → Text → ExecM F (Unit {0})
  unfolding terminated encode
  write_string op text = write_to op (bytes (terminated text))

  -- `m.read(…)?`, which does not record an index out of bounds, and what is made of the value.
  unfoldable pub read_plain : {A : Type 0} → Operand → (Value F → Result ExecError A) → ExecM F A
  read_plain op f m = elim (read m op) [
    | ok value ↦ (f value, m)
    | err e ↦ (err (machine e), m)
    | panic ↦ (panic, m)
  ]

  abbrev pub as_number : String → Value F → Result ExecError ℕ
  as_number mnemonic (int v) = ok (as_u32 v)
  as_number mnemonic (float x) = err (invalid_operand mnemonic)
  as_number mnemonic (bytes b) = err (invalid_operand mnemonic)

  unfoldable pub read_value_data : String → Operand → ExecM F ℕ
  unfolding read_plain
  read_value_data mnemonic op = read_plain op (as_number mnemonic)

  abbrev pub as_length : String → Value F → Result ExecError ℕ
  as_length mnemonic (bytes b) = ok (as_u32 (length b))
  as_length mnemonic (int v) = err (invalid_operand mnemonic)
  as_length mnemonic (float x) = err (invalid_operand mnemonic)

  -- The length of a buffer that `data_len` reads.
  unfoldable pub buffer_len : String → Operand → ExecM F ℕ
  unfolding read_plain
  buffer_len mnemonic op = read_plain op (as_length mnemonic)

  unfoldable pub data_len : String → Operand → ExecM F ℕ
  unfolding buffer_len
  data_len mnemonic (reg bank_b idx) = pure 1
  data_len mnemonic (reg bank_i idx) = pure 2
  data_len mnemonic (reg bank_l idx) = pure 4
  data_len mnemonic (reg bank_s idx) = buffer_len mnemonic (reg bank_s idx)
  data_len mnemonic (str b) = buffer_len mnemonic (str b)
  data_len mnemonic _ = lift (err (invalid_operand mnemonic))

  unfoldable pub start_of : String → IndexArg → ExecM F ℕ
  unfolding read_value_data
  start_of mnemonic (imm_index v) = pure (as_u32 v)
  start_of mnemonic (reg_index id) = read_value_data mnemonic (reg id.bank id.idx)

  -- The register and the start.
  unfoldable pub indexed_base_and_start : String → Operand → ExecM F (Operand × ℕ)
  unfolding start_of
  indexed_base_and_start mnemonic (indexed base index none) = do
    start ← start_of mnemonic index
    pure (reg base.bank base.idx, start)
  indexed_base_and_start mnemonic _ = lift (err (invalid_operand mnemonic))

  unfoldable pub op_xsend : Op → ExecM F Flow
  unfolding read_bytes
  op_xsend op = do request ← read_bytes "xsend" op.arg1; pure (exchange request op.arg0)

  unfoldable pub op_scmp : Op → ExecM F Flow
  unfolding read_bytes
  op_scmp op = do
    a ← read_bytes "scmp" op.arg0
    b ← read_bytes "scmp" op.arg1
    set ← set_flags (λ flags. record flags { z = texts_equal a b })
    pure next

  unfoldable pub op_scat : Op → ExecM F Flow
  unfolding read_bytes
  op_scat op = do
    a ← read_bytes "scat" op.arg0
    b ← read_bytes "scat" op.arg1
    written ← write_to op.arg0 (bytes (a ++ b))
    pure next

  unfoldable pub op_scut : Op → ExecM F Flow
  unfolding read_bytes read_value_data
  op_scut op = do
    buffer ← read_bytes "scut" op.arg0
    len ← read_value_data "scut" op.arg1
    written ←
        write_to op.arg0
          (bytes (if ltb (length buffer) len then [] else take (length buffer - len) buffer))
    pure next

  unfoldable pub op_slen : Op → ExecM F Flow
  unfolding data_len update_zs
  op_slen op = do
    width ← lift (arg_width "slen" op.arg0)
    value ← data_len "slen" op.arg1
    written ← write_to op.arg0 (int value)
    set ← set_flags (λ flags. update_zs (record flags { v = false }) value width)
    pure next

  -- The store of `spaste`, within the buffer only.
  unfoldable pub paste : Operand → (start : ℕ) → (dest source : List ℕ) → ExecM F (Unit {0})
  paste base start dest source =
      if ltb start (length dest)
      then write_to base (bytes (take start dest ++ source ++ drop start dest))
      else pure tt

  unfoldable pub op_spaste : Op → ExecM F Flow
  unfolding indexed_base_and_start read_bytes paste
  op_spaste op = do
    at ← indexed_base_and_start "spaste" op.arg0
    dest ← read_bytes "spaste" at.0
    source ← read_bytes "spaste" op.arg1
    pasted ← paste at.0 at.1 dest source
    pure next

  unfoldable pub op_serase : Op → ExecM F Flow
  unfolding indexed_base_and_start read_bytes read_value_data erase_from
  op_serase op = do
    at ← indexed_base_and_start "serase" op.arg0
    buffer ← read_bytes "serase" at.0
    len ← read_value_data "serase" op.arg1
    written ← write_to at.0 (bytes (erase_from 0 at.1 (at.1 + len) buffer))
    pure next

  unfoldable pub op_strcat : Op → ExecM F Flow
  unfolding read_string write_string
  op_strcat op = do
    s ← read_string "strcat" op.arg0
    t ← read_string "strcat" op.arg1
    written ← write_string op.arg0 (s ++ t)
    pure next

  unfoldable pub op_strcmp : Op → ExecM F Flow
  unfolding read_string
  op_strcmp op = do
    a ← read_string "strcmp" op.arg0
    b ← read_string "strcmp" op.arg1
    set ← set_flags (λ flags. record flags { z = not (texts_equal a b) })
    pure next

  unfoldable pub op_strlen : Op → ExecM F Flow
  unfolding read_string update_zs
  op_strlen op = do
    width ← lift (arg_width "strlen" op.arg0)
    text ← read_string "strlen" op.arg1
    written ← write_to op.arg0 (int (as_u32 (length text)))
    set ← set_flags (λ flags. update_zs (record flags { v = false }) (as_u32 (length text)) width)
    pure next
