-- ===== src/Examples/Files.antt =====
-- crates/sgbd/src/prg.rs: a job file with two jobs, the first of three bytes and the second of one.
use klartext.Prelude.{
  ℕ, ◌-◌, ◌≡◌, refl, List, [], ◌∷◌, ◌++◌, map, some, ok, length, IsByte, All-append, replicate-All,
  arith, replicate, to_le_bytes, get_range?,
}
use klartext.Sgbd.Cp1252.{decode, encode, encode-decode_text}
use klartext.Sgbd.Reads.{deobf_buffer, deobf_u32, raw_u32}
use klartext.Sgbd.Program.{
  Prg, offset_job_dir, name_field_len, parse, job_bytecode, has_job, find_offset,
}
use klartext.Sgbd.Program.Jobs.{Placed, job_bytecode-Placed}
use klartext.Sgbd.Reads.Keys.{deobf_buffer_twice}
use klartext.Sgbd.Program.Names.{is_some, has_job-find_offset}

abbrev entry : List ℕ → ℕ → List ℕ
entry name offset = name ++ replicate (name_field_len - length name) 0 ++ to_le_bytes 4 offset

abbrev first : List ℕ
first = 0x41 ∷ []

abbrev second : List ℕ
second = 0x42 ∷ []

-- The file decoded: the signature, the pointer to the job directory, two entries and the code.
abbrev image : List ℕ
image =
    (0x40 ∷ 0x45 ∷ 0x44 ∷ 0x49 ∷ 0x41 ∷ 0x42 ∷ 0x41 ∷ 0x53 ∷ 0x20 ∷ 0x4f ∷ 0x42 ∷ 0x4a ∷ 0x45 ∷ 0x43
      ∷ 0x54 ∷ [])
    ++ replicate (offset_job_dir - 15) 0
    ++ to_le_bytes 4 0x8c
    ++ to_le_bytes 4 2
    ++ entry first 280
    ++ entry second 283
    ++ 0x1d ∷ 0 ∷ 0 ∷ 0x1d ∷ []

abbrev file : List ℕ
file = deobf_buffer image

abbrev program : Prg
program = elim (parse file) [
  | ok prg ↦ prg
  | _ ↦ record { tables = []; jobs = []; deob = []; job_offsets = [] }
]

first_test : job_bytecode program first ≡ some (0x1d ∷ 0 ∷ 0 ∷ [])
unfolding parse job_bytecode deobf_buffer get_range? decode
first_test = refl

job_bytecode-Placed_example :
    (off : ℕ) × (end : ℕ) × Placed program first (0x1d ∷ 0 ∷ 0 ∷ []) off end
job_bytecode-Placed_example = job_bytecode-Placed program first (0x1d ∷ 0 ∷ 0 ∷ []) first_test

abbrev body : List ℕ
body = replicate 160 0 ++ 0x41 ∷ 0xf7 ∷ 0xff ∷ 0 ∷ []

deobf_buffer_twice_example :
    (deobf_buffer (deobf_buffer body) ≡ body)
    × (length (deobf_buffer body) ≡ 164)
    × (deobf_u32 body 160 ≡ raw_u32 (deobf_buffer body) 160)
deobf_buffer_twice_example = deobf_buffer_twice body 160 (
    All-append IsByte (replicate 160 0) (0x41 ∷ 0xf7 ∷ 0xff ∷ 0 ∷ [])
      (replicate-All IsByte 160 0 (ground arith))
      (ground arith, (ground arith, (ground arith, (ground arith, tt)))))

parsed_test : parse file ≡ ok program
unfolding parse deobf_buffer
parsed_test = refl

has_job-find_offset_example :
    (program.jobs ≡ map (λ job. job.0) program.job_offsets)
    × (has_job program second ≡ is_some (find_offset second program.job_offsets))
has_job-find_offset_example = has_job-find_offset file program second parsed_test

encode-decode_text_example : encode (decode (0x41 ∷ 0x80 ∷ 0xd6 ∷ [])) ≡ 0x41 ∷ 0x80 ∷ 0xd6 ∷ []
encode-decode_text_example =
    encode-decode_text (0x41 ∷ 0x80 ∷ 0xd6 ∷ []) (ground arith, (ground arith, (ground arith, tt)))
