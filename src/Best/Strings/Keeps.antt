-- ===== src/Best/Strings/Keeps.antt =====
-- crates/best/src/exec.rs: the instructions on buffers and texts on a machine with its sizes.
use Prim.Native.String.{String}
use klartext.Prelude.{ℕ, none, some, List, length, ltb, Result, ok, err, panic}
use klartext.Sgbd.Cp1252.{Text}
use klartext.Best.Decode.{
  bank_b, bank_i, bank_l, bank_s, bank_f, IndexArg, imm_index, reg_index, Operand, no_operand, imm,
  str, reg, indexed, Op,
}
use klartext.Best.Decode.Reads.{OperandInRange, IndexInRange}
use klartext.Best.Machine.{
  Value, int, float, bytes, MachineError, out_of_range, index_out_of_bounds, unsupported, Machine,
  read,
}
use klartext.Best.Machine.Bytes.{IsMachine}
use klartext.Best.Machine.Bounds.{Found, Any, read-Found}
use klartext.Best.Exec.{ExecError, machine, Flow, exchange, ExecM, ◌>>=◌, pure}
use klartext.Best.Exec.Keeps.{
  Keeps, keeps_rules, FlowInRange, Post, Keeps-lift, Keeps-pure, Keeps-bind, Keeps-bind-with,
  Keeps-if, Keeps-write_to,
}
use klartext.Best.Moves.{read_bytes}
use klartext.Best.Moves.Keeps.{Keeps-read_bytes}
use klartext.Best.Strings.{
  terminated, read_plain, as_number, as_length, read_string, write_string, read_value_data,
  buffer_len, data_len, start_of, indexed_base_and_start, paste, op_xsend, op_scmp, op_scat,
  op_scut, op_slen, op_spaste, op_serase, op_strcat, op_strcmp, op_strlen,
}

-- The register of a base exists.
abbrev Based : Operand × ℕ → Type 0
Based at = OperandInRange at.0

module _ {F : Type 0} where
  pub Keeps-read_string :
      (mnemonic : String) (op : Operand)
      → OperandInRange op
      → Keeps {F = F} Any (read_string mnemonic op)
  unfolding read_string
  Keeps-read_string mnemonic op h =
      Keeps-bind (read_bytes mnemonic op) _ (Keeps-read_bytes mnemonic op h) λ b. Keeps-pure _ tt

  pub Keeps-write_string :
      (op : Operand) (text : Text) → OperandInRange op → Keeps {F = F} Any (write_string op text)
  unfolding write_string
  Keeps-write_string op text h = Keeps-write_to op (bytes (terminated text)) h

  pub Keeps-read_plain :
      {A : Type 0} (op : Operand) (f : Value F → Result ExecError A)
      → OperandInRange op
      → ((value : Value F) → Post Any (f value))
      → Keeps {F = F} Any (read_plain op f)
  unfolding read_plain
  Keeps-read_plain {A} op f h p = record { at = λ m w. go m w (read m op) (read-Found m w op h) }
    where
      go :
          (m : Machine F)
          → IsMachine m
          → (r : Result MachineError (Value F)) → Found Any r
          → let out : Result ExecError A × Machine F = elim r [
            | ok value ↦ (f value, m)
            | err e ↦ (err (machine e), m)
            | panic ↦ (panic, m)
          ] in
            IsMachine out.1 × Post Any out.0
      go m w (ok value) q = (w, p value)
      go m w (err (index_out_of_bounds i n)) q = (w, tt)
      go m w (err (unsupported u)) q = (w, tt)
      go m w (err (out_of_range bank idx)) q = absurd q
      go m w panic q = absurd q

  as_number-Post : (mnemonic : String) (value : Value F) → Post Any (as_number mnemonic value)
  as_number-Post mnemonic (int v) = tt
  as_number-Post mnemonic (float x) = tt
  as_number-Post mnemonic (bytes b) = tt

  as_length-Post : (mnemonic : String) (value : Value F) → Post Any (as_length mnemonic value)
  as_length-Post mnemonic (int v) = tt
  as_length-Post mnemonic (float x) = tt
  as_length-Post mnemonic (bytes b) = tt

  pub Keeps-read_value_data :
      (mnemonic : String) (op : Operand)
      → OperandInRange op
      → Keeps {F = F} Any (read_value_data mnemonic op)
  unfolding read_value_data
  Keeps-read_value_data mnemonic op h =
      Keeps-read_plain op (as_number mnemonic) h (as_number-Post mnemonic)

  Keeps-buffer_len :
      (mnemonic : String) (op : Operand)
      → OperandInRange op
      → Keeps {F = F} Any (buffer_len mnemonic op)
  unfolding buffer_len
  Keeps-buffer_len mnemonic op h =
      Keeps-read_plain op (as_length mnemonic) h (as_length-Post mnemonic)

  pub Keeps-data_len :
      (mnemonic : String) (op : Operand)
      → OperandInRange op
      → Keeps {F = F} Any (data_len mnemonic op)
  unfolding data_len
  Keeps-data_len mnemonic no_operand h = Keeps-lift _ tt
  Keeps-data_len mnemonic (imm v) h = Keeps-lift _ tt
  Keeps-data_len mnemonic (str b) h = Keeps-buffer_len mnemonic (str b) h
  Keeps-data_len mnemonic (reg bank_b idx) h = Keeps-pure 1 tt
  Keeps-data_len mnemonic (reg bank_i idx) h = Keeps-pure 2 tt
  Keeps-data_len mnemonic (reg bank_l idx) h = Keeps-pure 4 tt
  Keeps-data_len mnemonic (reg bank_s idx) h = Keeps-buffer_len mnemonic (reg bank_s idx) h
  Keeps-data_len mnemonic (reg bank_f idx) h = Keeps-lift _ tt
  Keeps-data_len mnemonic (indexed base index len) h = Keeps-lift _ tt

  Keeps-start_of :
      (mnemonic : String) (index : IndexArg)
      → IndexInRange index
      → Keeps {F = F} Any (start_of mnemonic index)
  unfolding start_of
  Keeps-start_of mnemonic (imm_index v) h = Keeps-pure _ tt
  Keeps-start_of mnemonic (reg_index id) h = Keeps-read_value_data mnemonic (reg id.bank id.idx) h

  Keeps-base :
      (mnemonic : String) (op : Operand)
      → OperandInRange op
      → Keeps {F = F} Based (indexed_base_and_start mnemonic op)
  unfolding indexed_base_and_start
  Keeps-base mnemonic (indexed base index none) (h, k, j) =
      Keeps-bind (start_of mnemonic index) _ (Keeps-start_of mnemonic index k)
        λ start. Keeps-pure _ h
  Keeps-base mnemonic (indexed base index (some len)) h = Keeps-lift _ tt
  Keeps-base mnemonic no_operand h = Keeps-lift _ tt
  Keeps-base mnemonic (imm v) h = Keeps-lift _ tt
  Keeps-base mnemonic (str b) h = Keeps-lift _ tt
  Keeps-base mnemonic (reg bank idx) h = Keeps-lift _ tt

  pub Keeps-bind-base :
      (mnemonic : String) (op : Operand) (f : Operand × ℕ → ExecM F Flow)
      → OperandInRange op
      → ((base : Operand) (start : ℕ) → OperandInRange base → Keeps FlowInRange (f (base, start)))
      → Keeps FlowInRange (indexed_base_and_start mnemonic op >>= f)
  Keeps-bind-base mnemonic op f h kf =
      Keeps-bind-with Based _ f (Keeps-base mnemonic op h) λ at p. kf at.0 at.1 p

  pub Keeps-paste :
      (base : Operand) (start : ℕ) (dest source : List ℕ)
      → OperandInRange base
      → Keeps {F = F} Any (paste base start dest source)
  unfolding paste
  Keeps-paste base start dest source h =
      Keeps-if (ltb start (length dest)) _ _ (Keeps-write_to base _ h) (Keeps-pure tt tt)

  pub Keeps-exchange :
      (request : List ℕ) (dest : Operand)
      → OperandInRange dest
      → Keeps {F = F} FlowInRange (pure (exchange request dest))
  Keeps-exchange request dest h = Keeps-pure _ h

pub ruleset text_rules = (
  keeps_rules, Keeps-read_bytes, Keeps-read_string, Keeps-write_string, Keeps-read_value_data,
  Keeps-data_len, Keeps-bind-base, Keeps-paste, Keeps-exchange,
)

module _ {F : Type 0} (op : Op) (h : OperandInRange op.arg0) (k : OperandInRange op.arg1) where
  pub op_xsend-Keeps : Keeps {F = F} FlowInRange (op_xsend op)
  unfolding op_xsend
  op_xsend-Keeps = search text_rules depth 12

  pub op_scmp-Keeps : Keeps {F = F} FlowInRange (op_scmp op)
  unfolding op_scmp
  op_scmp-Keeps = search text_rules depth 12

  pub op_scat-Keeps : Keeps {F = F} FlowInRange (op_scat op)
  unfolding op_scat
  op_scat-Keeps = search text_rules depth 12

  pub op_scut-Keeps : Keeps {F = F} FlowInRange (op_scut op)
  unfolding op_scut
  op_scut-Keeps = search text_rules depth 12

  pub op_slen-Keeps : Keeps {F = F} FlowInRange (op_slen op)
  unfolding op_slen
  op_slen-Keeps = search text_rules depth 12

  pub op_spaste-Keeps : Keeps {F = F} FlowInRange (op_spaste op)
  unfolding op_spaste
  op_spaste-Keeps = search text_rules depth 12

  pub op_serase-Keeps : Keeps {F = F} FlowInRange (op_serase op)
  unfolding op_serase
  op_serase-Keeps = search text_rules depth 12

  pub op_strcat-Keeps : Keeps {F = F} FlowInRange (op_strcat op)
  unfolding op_strcat
  op_strcat-Keeps = search text_rules depth 12

  pub op_strcmp-Keeps : Keeps {F = F} FlowInRange (op_strcmp op)
  unfolding op_strcmp
  op_strcmp-Keeps = search text_rules depth 12

  pub op_strlen-Keeps : Keeps {F = F} FlowInRange (op_strlen op)
  unfolding op_strlen
  op_strlen-Keeps = search text_rules depth 12
