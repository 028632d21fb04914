-- ===== src/Best/Machine.antt =====
-- crates/best/src/machine.rs: the registers of the BEST/2 machine and the access to its operands.
-- The type of the floats is a parameter, as its arithmetic is the hardware's.
pub mod Bytes
pub mod Views
pub mod Buffers
pub mod Bounds
use klartext.Prelude.{
  ℕ, zero, suc, ◌+◌, ◌-◌, ◌*◌, ◌/◌, ◌%◌, ◌^◌, Bool, true, false, Option, none, some, List, [], ◌∷◌,
  ◌++◌, length, get_elem?, get_range?, get_from?, set, take, drop, leb, ltb, if◌then◌else◌, Result,
  ok, err, panic, ok_or, map_ok, ◌>>=◌, to_le_bytes, from_le_bytes, overwrite, replicate, grow,
}
use mathlib.Core.List.{reverse}
use klartext.Best.Decode.{
  RegBank, bank_b, bank_i, bank_l, bank_s, bank_f, RegId, IndexArg, imm_index, reg_index, Operand,
  no_operand, imm, str, reg, indexed,
}

-- `ARRAY_MAX_SIZE`
abbrev pub array_max_size : ℕ
array_max_size = 1023

pub record Flags : Type 0 where
  pub z : Bool
  pub s : Bool
  pub c : Bool
  pub v : Bool

-- An `i64` is the number of its 64 bits, below `2 ^ 64`, so that a cast to a width is a remainder.
pub data Value (F : Type 0) : Type 0 where
  int : ℕ → Value F
  float : F → Value F
  bytes : List ℕ → Value F

-- The occasions of the source's `Unsupported`, each with its message.
pub data Unsupported : Type 0 where
  no_value not_writable write_immediate write_literal not_indexed float_index int_index :
      Unsupported
  indexed_bank : RegBank → Unsupported
  wrong_kind : RegBank → Unsupported

pub data MachineError : Type 0 where
  out_of_range : RegBank → ℕ → MachineError
  index_out_of_bounds : ℕ → ℕ → MachineError
  unsupported : Unsupported → MachineError

-- `call_stack` is no part of the state: no code uses it.
pub record Machine (F : Type 0) : Type 0 where
  pub regs : List ℕ
  pub s : List (List ℕ)
  pub f : List F
  pub flags : Flags
  pub data_stack : List ℕ
  pub pc : ℕ
  pub trap_bit : Option ℕ
  pub trap_mask : ℕ

-- The end of the buffer from `idx` on, without a length, and `len` bytes, zeros past the end.
unfoldable pub tail_from : List ℕ → ℕ → Result MachineError (List ℕ)
tail_from buffer idx =
    if ltb array_max_size (idx + 1)
    then err (index_out_of_bounds idx 0)
    else ok (elim (get_from? buffer idx) [ none ↦ [] | some rest ↦ rest ])

unfoldable pub slice_at : List ℕ → ℕ → ℕ → Result MachineError (List ℕ)
slice_at buffer idx len =
    if ltb array_max_size (idx + len)
    then err (index_out_of_bounds idx len)
    else ok (
        let part = take len (drop idx buffer) in
        if ltb idx (length buffer)
        then part ++ replicate (len - length part) 0
        else replicate len 0)

-- `data.resize(…, 0)` when the buffer is too short, and the copy.
unfoldable pub store_at : List ℕ → ℕ → List ℕ → List ℕ
store_at buffer idx b =
    overwrite
      (if ltb (length buffer) (idx + length b) then grow buffer (idx + length b) 0 else buffer) idx
      b

-- `data.resize(…, 0)` when it is too short, the reversal of the range, and `data.truncate(used)`.
unfoldable pub swap_range : List ℕ → ℕ → ℕ → List ℕ
swap_range buffer start len =
    let grown = if ltb (length buffer) (start + len) then grow buffer (start + len) 0 else buffer in
    take (length buffer) (overwrite grown start (reverse (take len (drop start grown))))

module _ {F : Type 0} where
  abbrev pub with_regs : Machine F → List ℕ → Machine F
  with_regs m regs = record {
    regs = regs;
    s = m.s;
    f = m.f;
    flags = m.flags;
    data_stack = m.data_stack;
    pc = m.pc;
    trap_bit = m.trap_bit;
    trap_mask = m.trap_mask;
  }

  abbrev pub with_s : Machine F → List (List ℕ) → Machine F
  with_s m s = record {
    regs = m.regs;
    s = s;
    f = m.f;
    flags = m.flags;
    data_stack = m.data_stack;
    pc = m.pc;
    trap_bit = m.trap_bit;
    trap_mask = m.trap_mask;
  }

  abbrev pub with_f : Machine F → List F → Machine F
  with_f m f = record {
    regs = m.regs;
    s = m.s;
    f = f;
    flags = m.flags;
    data_stack = m.data_stack;
    pc = m.pc;
    trap_bit = m.trap_bit;
    trap_mask = m.trap_mask;
  }

  -- `new`, with the float `0.0`.
  abbrev pub new : F → Machine F
  new zero_float = record {
    regs = replicate 32 0;
    s = replicate 16 [];
    f = replicate 8 zero_float;
    flags = record { z = false; s = false; c = false; v = false };
    data_stack = [];
    pc = 0;
    trap_bit = none;
    trap_mask = 0;
  }

  -- The little-endian number in the `width` bytes of the file from `offset` on, and a store to them.
  unfoldable pub read_file : Machine F → RegBank → ℕ → ℕ → Result MachineError (Value F)
  read_file m bank idx width = elim (get_range? m.regs (idx * width) (idx * width + width)) [
    | none ↦ err (out_of_range bank idx)
    | some b ↦ ok (int (from_le_bytes b))
  ]

  unfoldable pub write_file : Machine F → RegBank → ℕ → ℕ → ℕ → Result MachineError (Machine F)
  write_file m bank idx width v =
      if leb (idx * width + width) (length m.regs)
      then ok (with_regs m (overwrite m.regs (idx * width) (to_le_bytes width v)))
      else err (out_of_range bank idx)

  unfoldable pub read_reg : Machine F → RegBank → ℕ → Result MachineError (Value F)
  read_reg m bank_b idx = read_file m bank_b idx 1
  read_reg m bank_i idx = read_file m bank_i idx 2
  read_reg m bank_l idx = read_file m bank_l idx 4
  read_reg m bank_s idx = map_ok bytes (ok_or (get_elem? m.s idx) (out_of_range bank_s idx))
  read_reg m bank_f idx = map_ok float (ok_or (get_elem? m.f idx) (out_of_range bank_f idx))

  unfoldable pub write_reg : Machine F → RegBank → ℕ → Value F → Result MachineError (Machine F)
  write_reg m bank_b idx (int v) = write_file m bank_b idx 1 v
  write_reg m bank_i idx (int v) = write_file m bank_i idx 2 v
  write_reg m bank_l idx (int v) = write_file m bank_l idx 4 v
  write_reg m bank_s idx (bytes b) =
      if ltb idx (length m.s) then ok (with_s m (set m.s idx b)) else err (out_of_range bank_s idx)
  write_reg m bank_f idx (float x) =
      if ltb idx (length m.f) then ok (with_f m (set m.f idx x)) else err (out_of_range bank_f idx)
  write_reg m bank_b idx (float x) = err (unsupported (wrong_kind bank_b))
  write_reg m bank_b idx (bytes b) = err (unsupported (wrong_kind bank_b))
  write_reg m bank_i idx (float x) = err (unsupported (wrong_kind bank_i))
  write_reg m bank_i idx (bytes b) = err (unsupported (wrong_kind bank_i))
  write_reg m bank_l idx (float x) = err (unsupported (wrong_kind bank_l))
  write_reg m bank_l idx (bytes b) = err (unsupported (wrong_kind bank_l))
  write_reg m bank_s idx (int v) = err (unsupported (wrong_kind bank_s))
  write_reg m bank_s idx (float x) = err (unsupported (wrong_kind bank_s))
  write_reg m bank_f idx (int v) = err (unsupported (wrong_kind bank_f))
  write_reg m bank_f idx (bytes b) = err (unsupported (wrong_kind bank_f))

  unfoldable pub resolve_index : Machine F → IndexArg → Result MachineError ℕ
  resolve_index m (imm_index v) = ok v
  resolve_index m (reg_index id) = read_reg m id.bank id.idx >>= λ value. elim value [
    | int v ↦ ok v
    | float x ↦ err (unsupported int_index)
    | bytes b ↦ err (unsupported int_index)
  ]

  -- The `S` register that an indexed operand starts from.
  unfoldable pub indexed_base : Machine F → RegId → Result MachineError (List ℕ)
  indexed_base m base = elim base.bank [
    | bank_s ↦ ok_or (get_elem? m.s base.idx) (out_of_range bank_s base.idx)
    | other ↦ err (unsupported (indexed_bank other))
  ]

  unfoldable pub read_indexed :
      Machine F → RegId → IndexArg → Option IndexArg → Result MachineError (Value F)
  read_indexed m base index none = indexed_base m base >>= λ buffer.
      resolve_index m index >>= λ idx. map_ok bytes (tail_from buffer idx)
  read_indexed m base index (some len) = indexed_base m base >>= λ buffer.
      resolve_index m index >>= λ idx.
      resolve_index m len >>= λ n. map_ok bytes (slice_at buffer idx n)

  unfoldable pub read : Machine F → Operand → Result MachineError (Value F)
  read m (imm v) = ok (int v)
  read m (str b) = ok (bytes b)
  read m (reg bank idx) = read_reg m bank idx
  read m no_operand = err (unsupported no_value)
  read m (indexed base index len) = read_indexed m base index len

  -- The bytes that a value stores: the `len` low bytes of an integer, at most eight, as a shift by
  -- 64 aborts a checked build.
  unfoldable pub stored_bytes : Value F → ℕ → Result MachineError (List ℕ)
  stored_bytes (int v) len = if leb len 8 then ok (to_le_bytes len v) else panic
  stored_bytes (bytes b) len = ok b
  stored_bytes (float x) len = err (unsupported float_index)

  unfoldable pub put_s : Machine F → ℕ → (List ℕ → List ℕ) → Result MachineError (Machine F)
  put_s m n change = elim (get_elem? m.s n) [
    | none ↦ err (out_of_range bank_s n)
    | some buffer ↦ ok (with_s m (set m.s n (change buffer)))
  ]

  unfoldable pub write_at : Machine F → ℕ → ℕ → List ℕ → Result MachineError (Machine F)
  write_at m n idx b =
      if ltb array_max_size (idx + length b)
      then err (index_out_of_bounds idx (length b))
      else put_s m n (λ buffer. store_at buffer idx b)

  unfoldable pub write_indexed : Machine F → Operand → Value F → ℕ → Result MachineError (Machine F)
  write_indexed m (indexed base index len) value n = elim base.bank [
    | bank_s ↦
        stored_bytes value n >>= λ b. resolve_index m index >>= λ idx. write_at m base.idx idx b
    | other ↦ err (unsupported (indexed_bank other))
  ]
  write_indexed m _ value n = err (unsupported not_indexed)

  unfoldable pub write : Machine F → Operand → Value F → Result MachineError (Machine F)
  write m (reg bank idx) value = write_reg m bank idx value
  write m no_operand value = err (unsupported not_writable)
  write m (imm v) value = err (unsupported write_immediate)
  write m (str b) value = err (unsupported write_literal)
  write m (indexed base index len) value = write_indexed m (indexed base index len) value 1

  unfoldable pub swap_s_slice : Machine F → RegId → ℕ → ℕ → Result MachineError (Machine F)
  swap_s_slice m base start len = elim base.bank [
    | bank_s ↦ put_s m base.idx (λ buffer. swap_range buffer start len)
    | other ↦ err (unsupported (indexed_bank other))
  ]
