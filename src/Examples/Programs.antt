-- ===== src/Examples/Programs.antt =====
-- crates/best: a small job, decoded, and a machine that runs its instructions.
use klartext.Prelude.{
  ℕ, ◌+◌, ◌-◌, ◌*◌, ◌/◌, ◌%◌, ◌^◌, ◌≤◌, ◌≡◌, refl, ◌&&◌, List, [], ◌∷◌, none, some, All, ok, err,
  length, ltb, leb, if◌then◌else◌, arith, IsByte, replicate, replicate-All, get_range?, ◌<◌,
}
use klartext.Best.Opcode.{opcodes, info}
use klartext.Best.Decode.{
  bank_b, bank_i, bank_l, bank_s, imm_index, reg, imm, indexed, no_operand, bad_register, Op,
  decode_job, decode_loop, decode_one, read_operand, read_u8, read_register, read_reg as decode_reg,
  register, validate, from_nibble, position,
}
use klartext.Best.Decode.Reads.{bank_size}
use klartext.Best.Decode.Walk.{Tiles, Ends, has_eoj, decode_job-Tiles}
use klartext.Best.Machine.{
  Value, int, bytes, Machine, new, read, read_reg, write_reg, read_file, stored_bytes,
  resolve_index, write_indexed,
}
use klartext.Best.Machine.Bytes.{IsMachine, two_bytes}
use klartext.Best.Machine.Views.{write_reg-read_reg}
use klartext.Best.Machine.Buffers.{write_indexed-read}

-- `move B0, #0x2a` and `eoj`, with a byte of padding behind.
abbrev move_job : List ℕ
move_job = 0x00 ∷ 0x25 ∷ 0x00 ∷ 0x2a ∷ 0x1d ∷ 0x00 ∷ 0xff ∷ []

abbrev move_ops : List Op
move_ops =
    record {
      byte = 0x00;
      mode_byte = 0x25;
      arg0 = reg bank_b 0;
      arg1 = imm 0x2a;
      len = 4;
      offset = 0;
    }
    ∷ record {
      byte = 0x1d;
      mode_byte = 0x00;
      arg0 = no_operand;
      arg1 = no_operand;
      len = 2;
      offset = 4;
    }
    ∷ []

move_job-All : All IsByte move_job
move_job-All = (
  omega arith,
  (omega arith, (omega arith, (omega arith, (omega arith, (omega arith, (omega arith, tt)))))),
)

move_job-decode_job : decode_job move_job ≡ some (ok move_ops)
unfolding decode_job decode_loop decode_one read_operand read_u8 decode_reg read_register register
    validate from_nibble position opcodes info
move_job-decode_job = refl

-- A register that does not exist is an error before any `eoj`.
bad_register_first : decode_job (0x00 ∷ 0x25 ∷ 0x40 ∷ 0x2a ∷ []) ≡ some (err (bad_register 0x40))
unfolding decode_job decode_loop decode_one read_operand read_u8 decode_reg read_register register
    validate from_nibble position opcodes info
bad_register_first = refl

decode_job-Tiles_example :
    (ops : List Op) × (end : ℕ) × Tiles move_job 0 ops end
    × (end ≤ length move_job)
    × Ends move_job ops (has_eoj ops) end (decode_job move_job)
decode_job-Tiles_example = decode_job-Tiles move_job move_job-All

-- The machine at its start, with integers for floats.
abbrev pub fresh : Machine ℕ
fresh = new 0

fresh-IsMachine : IsMachine fresh
fresh-IsMachine = record {
  regs_size = refl;
  regs_bytes = replicate-All IsByte 32 0 (omega arith);
  s_size = refl;
  f_size = refl;
}

-- `B2` is the low byte of the upper half of `L0`.
abbrev pub loaded : Machine ℕ
loaded = record fresh { regs = 0x78 ∷ 0x56 ∷ 0x34 ∷ 0x12 ∷ replicate 28 0 }

loaded-IsMachine : IsMachine loaded
loaded-IsMachine = record {
  regs_size = refl;
  regs_bytes = (
    omega arith,
    (omega arith, (omega arith, (omega arith, replicate-All IsByte 28 0 (omega arith)))),
  );
  s_size = refl;
  f_size = refl;
}

pub loaded_long : read loaded (reg bank_l 0) ≡ ok (int 0x12345678)
unfolding read read_reg read_file get_range?
loaded_long = refl

i1_in_bank : 1 < bank_size bank_i
unfolding bank_size
i1_in_bank = omega arith

write_reg-read_reg_example :
    (m' : Machine ℕ) × (write_reg loaded bank_i 1 (int 0x1beef) ≡ ok m')
    × IsMachine m'
    × (m'.s ≡ loaded.s)
    × (m'.f ≡ loaded.f)
    × (read_reg m' bank_i 1 ≡ ok (int (0x1beef % 256 ^ 2)))
    × (read_reg m' bank_b 3 ≡ (
        if leb (1 * 2) 3 && ltb 3 (1 * 2 + 2)
        then ok (int (0x1beef / 256 ^ (3 - 1 * 2) % 256))
        else read_reg loaded bank_b 3))
write_reg-read_reg_example =
    write_reg-read_reg loaded loaded-IsMachine bank_i 2 1 0x1beef 3 two_bytes i1_in_bank
      (omega arith)

-- A request in the buffer `S1`.
abbrev request_buffer : List ℕ
request_buffer = 0x22 ∷ 0xf1 ∷ 0x90 ∷ []

abbrev buffered : Machine ℕ
buffered = record fresh { s = [] ∷ request_buffer ∷ replicate 14 [] }

abbrev stored_value : Value ℕ
stored_value = int 0x1234

request_stored : stored_bytes stored_value 2 ≡ ok (0x34 ∷ 0x12 ∷ [])
unfolding stored_bytes
request_stored = refl

request_at : resolve_index buffered (imm_index 2) ≡ ok 2
unfolding resolve_index
request_at = refl

write_indexed-read_example :
    (m' : Machine ℕ) × (write_indexed buffered
        (indexed record { bank = bank_s; idx = 1 } (imm_index 2) none)
        (int 0x1234)
        2
      ≡ ok m')
    × (read m' (indexed record { bank = bank_s; idx = 1 } (imm_index 2) (some (imm_index 2)))
        ≡ ok (bytes (0x34 ∷ 0x12 ∷ [])))
    × (read m' (indexed record { bank = bank_s; idx = 1 } (imm_index 1) (some (imm_index 1)))
        ≡ ok (bytes (0xf1 ∷ [])))
write_indexed-read_example =
    write_indexed-read buffered 1 (imm_index 2) none (int 0x1234) 2 2 1 request_buffer
      (0x34 ∷ 0x12 ∷ []) refl request_stored request_at (omega arith) (omega arith) refl
