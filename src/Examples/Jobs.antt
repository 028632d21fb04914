-- ===== src/Examples/Jobs.antt =====
-- crates/best/src/exec.rs: a comparison of two bytes, and a register pushed.
use klartext.Prelude.{◌+◌, ◌/◌, ◌≡◌, refl, false, not, ltb, leb, ◌==◌, ok, arith}
use klartext.Best.Decode.{bank_l, reg, no_operand, Op}
use klartext.Best.Machine.{Flags}
use klartext.Best.Machine.Bytes.{four_bytes}
use klartext.Best.Moves.{shift_left}
use klartext.Best.Moves.Shifts.{shift_left-add_flags}
use klartext.Best.Exec.{add_flags, update_zs, as_u32, sub_flags, ◌>>=◌, value_data_len}
use klartext.Best.Integers.{op_push, pop_value}
use klartext.Best.Branches.{taken}
use klartext.Best.Exec.Compare.{byte_width, biased, taken-sub_flags, taken-sub_flags_min}
use klartext.Best.Exec.Stack.{op_push-pop_value}
use klartext.Examples.Programs.{loaded, loaded_long}

abbrev clear_flags : Flags
clear_flags = record { z = false; s = false; c = false; v = false }

taken-sub_flags_example :
    (taken 0x0e (sub_flags clear_flags 3 0xfe 1) ≡ ltb 3 0xfe)
    × (taken 0x0f (sub_flags clear_flags 3 0xfe 1) ≡ leb 0xfe 3)
    × (taken 0x10 (sub_flags clear_flags 3 0xfe 1) ≡ (3 == 0xfe))
    × (taken 0x11 (sub_flags clear_flags 3 0xfe 1) ≡ not (3 == 0xfe))
    × (taken 0x5e (sub_flags clear_flags 3 0xfe 1) ≡ ltb 0xfe 3)
    × (taken 0x5f (sub_flags clear_flags 3 0xfe 1) ≡ leb 3 0xfe)
    × (taken 0x5a (sub_flags clear_flags 3 0xfe 1) ≡ ltb (biased 0x80 0xfe) (biased 0x80 3))
    × (taken 0x5b (sub_flags clear_flags 3 0xfe 1) ≡ leb (biased 0x80 0xfe) (biased 0x80 3))
    × (taken 0x5c (sub_flags clear_flags 3 0xfe 1) ≡ ltb (biased 0x80 3) (biased 0x80 0xfe))
    × (taken 0x5d (sub_flags clear_flags 3 0xfe 1) ≡ leb (biased 0x80 3) (biased 0x80 0xfe))
taken-sub_flags_example =
    taken-sub_flags clear_flags 3 0xfe byte_width (omega arith) (omega arith)
      (λ e. omega (arith, e))

taken-sub_flags_min_example :
    (taken 0x5c (sub_flags clear_flags 0 0x80 1) ≡ not (0 == 0x80))
    × (taken 0x5b (sub_flags clear_flags 0 0x80 1) ≡ (0 == 0x80))
taken-sub_flags_min_example = taken-sub_flags_min clear_flags 0 byte_width (omega arith)

-- `push L0`.
abbrev push_long : Op
push_long = record {
  byte = 0x1e;
  mode_byte = 0x40;
  arg0 = reg bank_l 0;
  arg1 = no_operand;
  len = 3;
  offset = 0;
}

push_long-width : value_data_len (0x40 / 16) (reg bank_l 0) "push" ≡ ok 4
unfolding value_data_len
push_long-width = refl

op_push-pop_value_example :
    (op_push push_long >>= λ f. pop_value 4) loaded ≡ (ok 0x12345678, loaded)
op_push-pop_value_example =
    op_push-pop_value loaded push_long bank_l 4 0x12345678 four_bytes push_long-width loaded_long
      (omega arith)

shift_left-add_flags_example :
    ((shift_left 0xc1 1 1 false).1 ≡ as_u32 (0xc1 + 0xc1))
    × ((shift_left 0xc1 1 1 false).0 ≡ (add_flags clear_flags 0xc1 0xc1 1).c)
    × ((update_zs clear_flags (shift_left 0xc1 1 1 false).1 1).z
        ≡ (add_flags clear_flags 0xc1 0xc1 1).z)
    × ((update_zs clear_flags (shift_left 0xc1 1 1 false).1 1).s
        ≡ (add_flags clear_flags 0xc1 0xc1 1).s)
shift_left-add_flags_example = shift_left-add_flags clear_flags 0xc1 false byte_width (omega arith)
