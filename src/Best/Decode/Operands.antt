-- ===== src/Best/Decode/Operands.antt =====
-- crates/best/src/decode.rs: operands name registers that exist, and an instruction is read whole.
use klartext.Prelude.{
  ℕ, ◌+◌, ◌/◌, ◌%◌, ◌<◌, ◌≡◌, refl, get_elem?-some, bit_and, eq_below, all_within, arith, IsByte,
}
use klartext.Best.Decode.{
  AddrMode, IndexArg, Operand, imm, str, Op, DecodeM, ◌>>=◌, pure, read_bytes, read_u16_le,
  from_nibble, read_register, read_imm_index, read_reg_index, read_reg, read_indexed,
  read_indexed_len, read_operand, modes, absent, reg_s, reg_ab, reg_i, reg_l, imm8, imm16, imm32,
  imm_str, idx_imm, idx_reg, idx_reg_imm, idx_imm_len_imm, idx_imm_len_reg, idx_reg_len_imm,
  idx_reg_len_reg, validate, position, decode_one,
}
use klartext.Best.Decode.Reads.{
  RegisterInRange, IndexInRange, OperandInRange, Yields, Anything, Holds, pure-Yields, bind-Yields,
  weaken, lift-Yields, read_u8-Yields, read_bytes-Yields, read_u16_le-Yields, read_u32_le-Yields,
  register-InRange,
}

read_register-Yields : Yields RegisterInRange 1 read_register
unfolding read_register
read_register-Yields =
    bind-Yields IsByte RegisterInRange 1 0 _ _ read_u8-Yields
      λ n _. lift-Yields RegisterInRange _ (register-InRange n)

read_imm_index-Yields : Yields IndexInRange 1 read_imm_index
unfolding read_imm_index
read_imm_index-Yields =
    weaken IndexInRange 2 1 _ (omega arith)
      (bind-Yields Anything IndexInRange 2 0 _ _ read_u16_le-Yields λ n _. pure-Yields _ _ tt)

read_reg_index-Yields : Yields IndexInRange 1 read_reg_index
unfolding read_reg_index
read_reg_index-Yields =
    bind-Yields RegisterInRange IndexInRange 1 0 _ _ read_register-Yields λ id h. pure-Yields _ _ h

read_reg-Yields : Yields OperandInRange 1 read_reg
unfolding read_reg
read_reg-Yields =
    bind-Yields RegisterInRange OperandInRange 1 0 _ _ read_register-Yields
      λ id h. pure-Yields _ _ h

module _ (read_index : DecodeM IndexArg) (y : Yields IndexInRange 1 read_index) where
  read_indexed-Yields : Yields OperandInRange 2 (read_indexed read_index)
  unfolding read_indexed
  read_indexed-Yields =
      bind-Yields RegisterInRange OperandInRange 1 1 _ _ read_register-Yields λ base h.
        bind-Yields IndexInRange OperandInRange 1 0 _ _ y λ index k. pure-Yields _ _ (h, k, tt)

  read_indexed_len-Yields :
      (read_len : DecodeM IndexArg)
      → Yields IndexInRange 1 read_len
      → Yields OperandInRange 3 (read_indexed_len read_index read_len)
  unfolding read_indexed_len
  read_indexed_len-Yields read_len z =
      bind-Yields RegisterInRange OperandInRange 1 2 _ _ read_register-Yields λ base h.
        bind-Yields IndexInRange OperandInRange 1 1 _ _ y λ index k.
          bind-Yields IndexInRange OperandInRange 1 0 _ _ z λ len j. pure-Yields _ _ (h, k, j)

any_width : (k : ℕ) {m : DecodeM Operand} → Yields OperandInRange k m → Yields OperandInRange 0 m
any_width k y = weaken OperandInRange k 0 _ (omega arith) y

imm-Yields :
    (P : ℕ → Type 0) (k : ℕ) {read : DecodeM ℕ}
    → Yields P k read
    → Yields OperandInRange (k + 0) (read >>= λ n. pure (imm n))
imm-Yields P k y = bind-Yields P OperandInRange k 0 _ _ y λ n _. pure-Yields _ _ tt

str-Yields :
    Yields OperandInRange 2 (read_u16_le >>= λ len. read_bytes len >>= λ bytes. pure (str bytes))
str-Yields = bind-Yields Anything OperandInRange 2 0 _ _ read_u16_le-Yields λ n _.
    any_width (n + 0) (
      bind-Yields Anything OperandInRange n 0 _ _ (read_bytes-Yields n)
        λ bytes _. pure-Yields _ _ tt)

read_operand-Yields : (mode : AddrMode) → Yields OperandInRange 0 (read_operand mode)
unfolding read_operand
read_operand-Yields absent = pure-Yields _ _ tt
read_operand-Yields reg_s = any_width 1 read_reg-Yields
read_operand-Yields reg_ab = any_width 1 read_reg-Yields
read_operand-Yields reg_i = any_width 1 read_reg-Yields
read_operand-Yields reg_l = any_width 1 read_reg-Yields
read_operand-Yields imm8 = any_width 1 (imm-Yields IsByte 1 read_u8-Yields)
read_operand-Yields imm16 = any_width 2 (imm-Yields Anything 2 read_u16_le-Yields)
read_operand-Yields imm32 = any_width 4 (imm-Yields Anything 4 read_u32_le-Yields)
read_operand-Yields imm_str = any_width 2 str-Yields
read_operand-Yields idx_imm = any_width 2 (read_indexed-Yields _ read_imm_index-Yields)
read_operand-Yields idx_reg = any_width 2 (read_indexed-Yields _ read_reg_index-Yields)
read_operand-Yields idx_reg_imm =
    any_width 3 (read_indexed_len-Yields _ read_reg_index-Yields _ read_imm_index-Yields)
read_operand-Yields idx_imm_len_imm =
    any_width 3 (read_indexed_len-Yields _ read_imm_index-Yields _ read_imm_index-Yields)
read_operand-Yields idx_imm_len_reg =
    any_width 3 (read_indexed_len-Yields _ read_imm_index-Yields _ read_reg_index-Yields)
read_operand-Yields idx_reg_len_imm =
    any_width 3 (read_indexed_len-Yields _ read_reg_index-Yields _ read_imm_index-Yields)
read_operand-Yields idx_reg_len_reg =
    any_width 3 (read_indexed_len-Yields _ read_reg_index-Yields _ read_reg_index-Yields)

from_nibble-ok : (n : ℕ) → n < 16 → Holds Anything (from_nibble n)
unfolding from_nibble
from_nibble-ok n h = let (mode, e) = get_elem?-some modes n (omega arith) in rw (e, from_nibble) tt

low_nibble : (b : ℕ) → IsByte b → bit_and b 0x0f ≡ b % 16
unfolding all_within
low_nibble = eq_below 256 _ _ refl

low_nibble-ok : (b : ℕ) → IsByte b → Holds Anything (from_nibble (bit_and b 0x0f))
low_nibble-ok b h = from_nibble-ok (bit_and b 0x0f) (omega (arith, low_nibble b h))

validate-live : (b : ℕ) → Holds Anything (validate b)
unfolding validate
validate-live b = ground arith

-- Both operands of an instruction name registers that exist.
unfoldable pub OpInRange : Op → Type 0
OpInRange op = OperandInRange op.arg0 × OperandInRange op.arg1

position-Yields : Yields Anything 0 position
unfolding position
position-Yields = record { after = λ r h b. (tt, refl, omega arith, h) }

-- An instruction takes two bytes or more, stays within the code and never aborts the decoder.
pub decode_one-Yields : Yields OpInRange 2 decode_one
unfolding decode_one OpInRange
decode_one-Yields = bind-Yields Anything OpInRange 0 2 _ _ position-Yields λ offset _.
    bind-Yields IsByte OpInRange 1 1 _ _ read_u8-Yields λ byte _.
      bind-Yields Anything OpInRange 0 1 _ _ (lift-Yields Anything _ (validate-live byte)) λ v _.
        bind-Yields IsByte OpInRange 1 0 _ _ read_u8-Yields λ mode_byte b.
          bind-Yields Anything OpInRange 0 0 _ _
            (lift-Yields Anything _ (from_nibble-ok (mode_byte / 16) (omega arith)))
            λ mode0 _.
              bind-Yields OperandInRange OpInRange 0 0 _ _ (read_operand-Yields mode0) λ arg0 h.
                bind-Yields Anything OpInRange 0 0 _ _
                  (lift-Yields Anything _ (low_nibble-ok mode_byte b))
                  λ mode1 _.
                    bind-Yields OperandInRange OpInRange 0 0 _ _ (read_operand-Yields mode1)
                      λ arg1 k.
                        bind-Yields Anything OpInRange 0 0 _ _ position-Yields
                          λ end _. pure-Yields _ _ (h, k)
