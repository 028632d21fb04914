-- ===== src/Best/Decode.antt =====
-- crates/best/src/decode.rs: the instruction decoder of BEST/2, from a job's bytecode to its list of
-- instructions. The reader is a state of a monad that fails with the source's errors.
pub mod Reads
pub mod Operands
pub mod Walk
use Prim.Native.String.{String}
use klartext.Prelude.{
  ℕ, zero, suc, ◌+◌, ◌-◌, ◌*◌, ◌/◌, ◌^◌, Bool, true, false, ◌&&◌, ◌||◌, Option, none, some, List,
  [], ◌∷◌, ◌++◌, length, get_elem?, get_range?, bit_and, ◌==◌, ltb, leb, if◌then◌else◌, Result, ok,
  err, panic,
}
use klartext.Best.Opcode.{OpClass, unimplemented, OpInfo, info}

-- `EOJ`
abbrev pub eoj : ℕ
eoj = 0x1d

pub data AddrMode : Type 0 where
  absent reg_s reg_ab reg_i reg_l imm8 imm16 imm32 imm_str idx_imm idx_reg idx_reg_imm : AddrMode
  idx_imm_len_imm idx_imm_len_reg idx_reg_len_imm idx_reg_len_reg : AddrMode

pub data RegBank : Type 0 where
  bank_b bank_i bank_l bank_s bank_f : RegBank

pub record RegId : Type 0 where
  pub bank : RegBank
  pub idx : ℕ

pub data IndexArg : Type 0 where
  imm_index : ℕ → IndexArg
  reg_index : RegId → IndexArg

-- An immediate is unsigned and below `2 ^ 32`, so its `i64` is the number itself.
pub data Operand : Type 0 where
  no_operand : Operand
  imm : ℕ → Operand
  str : List ℕ → Operand
  reg : RegBank → ℕ → Operand
  indexed : RegId → IndexArg → Option IndexArg → Operand

pub record Op : Type 0 where
  pub byte : ℕ
  pub mode_byte : ℕ
  pub arg0 : Operand
  pub arg1 : Operand
  pub len : ℕ
  pub offset : ℕ

pub data DecodeError : Type 0 where
  unknown_opcode : ℕ → DecodeError
  unimplemented_opcode : String → DecodeError
  bad_register : ℕ → DecodeError
  truncated : DecodeError

pub record Reader : Type 0 where
  pub code : List ℕ
  pub pos : ℕ

-- An action on `&mut Reader` that can fail. The position that a failure leaves is lost, as the
-- source never reads on after one.
abbrev pub DecodeM : Type 0 → Type 0
DecodeM A = Reader → Result DecodeError (A × Reader)

infixl 5 ◌>>=◌
abbrev pub ◌>>=◌ : {A B : Type 0} → DecodeM A → (A → DecodeM B) → DecodeM B
◌>>=◌ m f r = elim (m r) [ ok s ↦ f s.0 s.1 | err e ↦ err e | panic ↦ panic ]

abbrev pub pure : {A : Type 0} → A → DecodeM A
pure a r = ok (a, r)

abbrev pub lift : {A : Type 0} → Result DecodeError A → DecodeM A
lift result r = elim result [ ok a ↦ ok (a, r) | err e ↦ err e | panic ↦ panic ]

-- `self.pos += n`
abbrev pub advance : ℕ → Reader → Reader
advance n r = record { code = r.code; pos = r.pos + n }

abbrev pub new : List ℕ → Reader
new code = record { code = code; pos = 0 }

unfoldable pub read_u8 : DecodeM ℕ
read_u8 r = elim (get_elem? r.code r.pos) [ none ↦ err truncated | some b ↦ ok (b, advance 1 r) ]

-- The sum of a position and a `u16` is below `2 ^ 64`, so that `checked_add` yields it.
unfoldable pub read_bytes : ℕ → DecodeM (List ℕ)
read_bytes n r = elim (get_range? r.code r.pos (r.pos + n)) [
  | none ↦ err truncated
  | some bytes ↦ ok (bytes, advance n r)
]

unfoldable pub read_u16_le : DecodeM ℕ
read_u16_le = do lo ← read_u8; hi ← read_u8; pure (lo + hi * 256)

unfoldable pub read_u32_le : DecodeM ℕ
read_u32_le = do
  b0 ← read_u8
  b1 ← read_u8
  b2 ← read_u8
  b3 ← read_u8
  pure (b0 + b1 * 256 + b2 * 2 ^ 16 + b3 * 2 ^ 24)

abbrev pub in_range : ℕ → ℕ → ℕ → Bool
in_range lo hi n = leb lo n && leb n hi

abbrev pub reg_id : RegBank → ℕ → Result DecodeError RegId
reg_id bank idx = ok record { bank = bank; idx = idx }

unfoldable pub register : ℕ → Result DecodeError RegId
register selector =
    if in_range 0x00 0x0f selector
    then reg_id bank_b selector
    else if in_range 0x10 0x17 selector
    then reg_id bank_i (selector - 0x10)
    else if in_range 0x18 0x1b selector
    then reg_id bank_l (selector - 0x18)
    else if in_range 0x1c 0x23 selector
    then reg_id bank_s (selector - 0x1c)
    else if in_range 0x24 0x2b selector
    then reg_id bank_f (selector - 0x24)
    else if in_range 0x2c 0x33 selector
    then reg_id bank_s (selector - 0x2c + 8)
    else if in_range 0x80 0x8f selector
    then reg_id bank_b (selector - 0x80 + 16)
    else if in_range 0x90 0x97 selector
    then reg_id bank_i (selector - 0x90 + 8)
    else if in_range 0x98 0x9b selector
    then reg_id bank_l (selector - 0x98 + 4)
    else err (bad_register selector)

abbrev pub modes : List AddrMode
modes =
    absent ∷ reg_s ∷ reg_ab ∷ reg_i ∷ reg_l ∷ imm8 ∷ imm16 ∷ imm32 ∷ imm_str ∷ idx_imm ∷ idx_reg
    ∷ idx_reg_imm ∷ idx_imm_len_imm ∷ idx_imm_len_reg ∷ idx_reg_len_imm ∷ idx_reg_len_reg ∷ []

-- The mode with a number below 16; beyond, the source panics.
unfoldable pub from_nibble : ℕ → Result DecodeError AddrMode
from_nibble nibble = elim (get_elem? modes nibble) [ none ↦ panic | some mode ↦ ok mode ]

-- `register(r.read_u8()?)?`, and the two kinds of an index.
unfoldable pub read_register : DecodeM RegId
read_register = do selector ← read_u8; lift (register selector)

unfoldable pub read_imm_index : DecodeM IndexArg
read_imm_index = do n ← read_u16_le; pure (imm_index n)

unfoldable pub read_reg_index : DecodeM IndexArg
read_reg_index = do id ← read_register; pure (reg_index id)

unfoldable pub read_reg : DecodeM Operand
read_reg = do id ← read_register; pure (reg id.bank id.idx)

unfoldable pub read_indexed : DecodeM IndexArg → DecodeM Operand
read_indexed read_index = do
  base ← read_register
  index ← read_index
  pure (indexed base index none)

unfoldable pub read_indexed_len : DecodeM IndexArg → DecodeM IndexArg → DecodeM Operand
read_indexed_len read_index read_len = do
  base ← read_register
  index ← read_index
  len ← read_len
  pure (indexed base index (some len))

unfoldable pub read_operand : AddrMode → DecodeM Operand
read_operand absent = pure no_operand
read_operand reg_s = read_reg
read_operand reg_ab = read_reg
read_operand reg_i = read_reg
read_operand reg_l = read_reg
read_operand imm8 = do n ← read_u8; pure (imm n)
read_operand imm16 = do n ← read_u16_le; pure (imm n)
read_operand imm32 = do n ← read_u32_le; pure (imm n)
read_operand imm_str = do len ← read_u16_le; bytes ← read_bytes len; pure (str bytes)
read_operand idx_imm = read_indexed read_imm_index
read_operand idx_reg = read_indexed read_reg_index
read_operand idx_reg_imm = read_indexed_len read_reg_index read_imm_index
read_operand idx_imm_len_imm = read_indexed_len read_imm_index read_imm_index
read_operand idx_imm_len_reg = read_indexed_len read_imm_index read_reg_index
read_operand idx_reg_len_imm = read_indexed_len read_reg_index read_imm_index
read_operand idx_reg_len_reg = read_indexed_len read_reg_index read_reg_index

-- `info(byte).ok_or(…)?` and the test of the class, before the mode byte is read.
unfoldable pub validate : ℕ → Result DecodeError (Unit {0})
validate byte = elim (info byte) [
  | none ↦ err (unknown_opcode byte)
  | some opinfo ↦ elim opinfo.class [
    | unimplemented ↦ err (unimplemented_opcode opinfo.mnemonic)
    | _ ↦ ok tt
  ]
]

unfoldable pub position : DecodeM ℕ
position r = ok (r.pos, r)

unfoldable pub decode_one : DecodeM Op
decode_one = do
  offset ← position
  byte ← read_u8
  valid ← lift (validate byte)
  mode_byte ← read_u8
  mode0 ← lift (from_nibble (mode_byte / 16))
  arg0 ← read_operand mode0
  mode1 ← lift (from_nibble (bit_and mode_byte 0x0f))
  arg1 ← read_operand mode1
  end ← position
  pure record {
    byte = byte;
    mode_byte = mode_byte;
    arg0 = arg0;
    arg1 = arg1;
    len = end - offset;
    offset = offset;
  }

-- The loop of `decode_job` for at most `fuel` instructions: `none` when the fuel has run out.
unfoldable pub decode_loop : ℕ → Reader → List Op → Bool → Option (Result DecodeError (List Op))
decode_loop zero r ops seen_eoj = if ltb r.pos (length r.code) then none else some (ok ops)
decode_loop (suc fuel) r ops seen_eoj = elim (ltb r.pos (length r.code)) [
  | false ↦ some (ok ops)
  | true ↦ elim (decode_one r) [
    | ok s ↦ decode_loop fuel s.1 (ops ++ s.0 ∷ []) ((s.0.byte == eoj) || seen_eoj)
    | err e ↦ some (if seen_eoj then ok ops else err e)
    | panic ↦ some panic
  ]
]

unfoldable pub decode_job : List ℕ → Option (Result DecodeError (List Op))
decode_job code = decode_loop (length code) (new code) [] false
