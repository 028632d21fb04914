-- ===== src/Sgbd/Reads.antt =====
-- crates/sgbd/src/prg.rs: the reads of a job file, which decode the bytes of its body. A position is a
-- `usize`, which the sums of a file's 32-bit fields do not reach beyond.
pub mod Keys
use Prim.Native.Nat.{bit_xor}
use klartext.Prelude.{
  ℕ, zero, suc, ◌+◌, ◌-◌, ◌*◌, Bool, true, false, not, ◌&&◌, ◌||◌, List, [], ◌∷◌, map, Option, none,
  some, length, get_elem?, get_range?, take, leb, ltb, ◌==◌, if◌then◌else◌, Result, ok, err,
  from_le_bytes,
}
use klartext.Sgbd.Cp1252.{Text, decode}

abbrev pub data_offset : ℕ
data_offset = 0xa0

abbrev pub xor_key : ℕ
xor_key = 0xf7

abbrev max_directory_entries : ℕ
max_directory_entries = 100000

unfoldable pub deobfuscate : (byte offset : ℕ) → ℕ
deobfuscate byte offset = if leb data_offset offset then bit_xor byte xor_key else byte

-- The bytes from the position `start` on.
unfoldable pub deobf_from : ℕ → List ℕ → List ℕ
unfolding deobfuscate
deobf_from start [] = []
deobf_from start (b ∷ bytes) = deobfuscate b start ∷ deobf_from (start + 1) bytes

unfoldable pub deobf_buffer : List ℕ → List ℕ
unfolding deobf_from
deobf_buffer bytes = deobf_from 0 bytes

unfoldable pub raw_u32 : List ℕ → ℕ → Option ℕ
raw_u32 bytes offset = elim (get_range? bytes offset (offset + 4)) [
  | none ↦ none
  | some range ↦ some (from_le_bytes range)
]

unfoldable pub deobf_u32 : List ℕ → ℕ → Option ℕ
unfolding deobf_from
deobf_u32 bytes offset = elim (get_range? bytes offset (offset + 4)) [
  | none ↦ none
  | some range ↦ some (from_le_bytes (deobf_from offset range))
]

-- The loop of `read_string` over at most `count` bytes: the bytes before the terminator, and how many
-- have been taken, the terminator included.
unfoldable pub read_bytes : (count : ℕ) → List ℕ → ℕ → List ℕ × ℕ
unfolding deobfuscate
read_bytes zero bytes i = ([], 0)
read_bytes (suc count) bytes i =
    let rest = read_bytes count bytes (i + 1) in
    elim (get_elem? bytes i) [
      | none ↦ ([], 0)
      | some b ↦ let c = deobfuscate b i in if c == 0 then ([], 1) else (c ∷ rest.0, rest.1 + 1)
    ]

unfoldable pub read_string : List ℕ → (offset max : ℕ) → Text × ℕ
unfolding read_bytes
read_string bytes offset max =
    let end = if leb (offset + max) (length bytes) then offset + max else length bytes in
    let raw = read_bytes (end - offset) bytes offset in (decode raw.0, raw.1)

unfoldable pub plausible_count : Option ℕ → Option ℕ
plausible_count none = none
plausible_count (some c) = if leb 1 c && leb c max_directory_entries then some c else none

-- `or_else`
abbrev or_else : Option ℕ → Option ℕ → Option ℕ
or_else none other = other
or_else (some c) other = some c

unfoldable pub read_directory : List ℕ → ℕ → Option (ℕ × ℕ)
unfolding raw_u32 deobf_u32 plausible_count
read_directory bytes ptr_offset = elim (raw_u32 bytes ptr_offset) [
  | none ↦ none
  | some dir ↦
      if dir == 0 || ltb (length bytes) (dir + 4)
      then none
      else elim (or_else (plausible_count (raw_u32 bytes dir))
          (plausible_count (deobf_u32 bytes dir))) [
            | none ↦ none
            | some count ↦ some (dir + 4, count)
          ]
]
