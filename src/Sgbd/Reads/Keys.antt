-- ===== src/Sgbd/Reads/Keys.antt =====
-- crates/sgbd/src/prg.rs: the decoded file against the reads that decode as they go.
use Prim.Native.Nat.{bit_xor}
use klartext.Prelude.{
  ℕ, suc, zero, ◌+◌, ◌-◌, ◌≡◌, refl, ap, ap₂, ◌∙◌, inl, inr, ◌&&◌, List, [], ◌∷◌, none, some,
  length, take, drop, leb, arith, Bool-cases, Option-cases, get_range?, All, IsByte, eq_below,
  all_within,
}
use klartext.Sgbd.Reads.{
  xor_key, data_offset, deobfuscate, deobf_from, deobf_buffer, raw_u32, deobf_u32,
}

bit_xor_twice : (b : ℕ) → IsByte b → bit_xor (bit_xor b xor_key) xor_key ≡ b
unfolding all_within
bit_xor_twice = eq_below 256 (λ b. bit_xor (bit_xor b xor_key) xor_key) (λ b. b) refl

deobfuscate_twice : (b offset : ℕ) → IsByte b → deobfuscate (deobfuscate b offset) offset ≡ b
unfolding deobfuscate
deobfuscate_twice b offset h = elim (Bool-cases (leb data_offset offset)) [
  | inl e ↦ rw e (bit_xor_twice b h)
  | inr e ↦ rw e refl
]

deobf_from_twice :
    (start : ℕ) (bytes : List ℕ)
    → All IsByte bytes
    → deobf_from start (deobf_from start bytes) ≡ bytes
unfolding deobf_from
deobf_from_twice start [] h = refl
deobf_from_twice start (b ∷ bytes) h =
    ap₂ (λ x xs. x ∷ xs) (deobfuscate_twice b start h.0) (deobf_from_twice (start + 1) bytes h.1)

length-deobf_from : (start : ℕ) (bytes : List ℕ) → length (deobf_from start bytes) ≡ length bytes
unfolding deobf_from
length-deobf_from start [] = refl
length-deobf_from start (b ∷ bytes) = ap suc (length-deobf_from (start + 1) bytes)

take-deobf_from :
    (n start : ℕ) (bytes : List ℕ)
    → take n (deobf_from start bytes) ≡ deobf_from start (take n bytes)
unfolding deobf_from
take-deobf_from zero start bytes = refl
take-deobf_from (suc n) start [] = refl
take-deobf_from (suc n) start (b ∷ bytes) =
    ap (λ xs. deobfuscate b start ∷ xs) (take-deobf_from n (start + 1) bytes)

drop-deobf_from :
    (n start : ℕ) (bytes : List ℕ)
    → drop n (deobf_from start bytes) ≡ deobf_from (start + n) (drop n bytes)
unfolding deobf_from
drop-deobf_from zero start bytes = ap (λ s. deobf_from s bytes) (omega arith)
drop-deobf_from (suc n) start [] = refl
drop-deobf_from (suc n) start (b ∷ bytes) =
    drop-deobf_from n (start + 1) bytes ∙ ap (λ s. deobf_from s (drop n bytes)) (omega arith)

-- A range of the decoded file is the range of the file, decoded where it stands.
pub get_range-deobf_buffer :
    (bytes : List ℕ) (lo hi : ℕ)
    → get_range? (deobf_buffer bytes) lo hi
      ≡ elim (get_range? bytes lo hi) [ none ↦ none | some range ↦ some (deobf_from lo range) ]
unfolding get_range? deobf_buffer
get_range-deobf_buffer bytes lo hi = elim (Bool-cases (leb lo hi && leb hi (length bytes))) [
  | inl e ↦ rw (length-deobf_from 0 bytes, e) (ap some range)
  | inr e ↦ rw (length-deobf_from 0 bytes, e) refl
]
  where
    range :
        take (hi - lo) (drop lo (deobf_from 0 bytes))
        ≡ deobf_from lo (take (hi - lo) (drop lo bytes))
    range =
        ap (take (hi - lo))
          (drop-deobf_from lo 0 bytes ∙ ap (λ s. deobf_from s (drop lo bytes)) (omega arith))
        ∙ take-deobf_from (hi - lo) lo (drop lo bytes)

deobf_u32-raw_u32 :
    (bytes : List ℕ) (offset : ℕ) → deobf_u32 bytes offset ≡ raw_u32 (deobf_buffer bytes) offset
unfolding deobf_u32 raw_u32
deobf_u32-raw_u32 bytes offset = elim (Option-cases (get_range? bytes offset (offset + 4))) [
  | inl e ↦ rw (deobf_u32, raw_u32, get_range-deobf_buffer bytes offset (offset + 4), e) refl
  | inr (range, e) ↦
      rw (deobf_u32, raw_u32, get_range-deobf_buffer bytes offset (offset + 4), e) refl
]

-- The decoding is its own inverse on bytes and keeps the length, and a number read in the file and
-- decoded on the way is the number that stands at its place in the decoded file.
pub deobf_buffer_twice :
    (bytes : List ℕ) (offset : ℕ)
    → All IsByte bytes
    → (deobf_buffer (deobf_buffer bytes) ≡ bytes)
      × (length (deobf_buffer bytes) ≡ length bytes)
      × (deobf_u32 bytes offset ≡ raw_u32 (deobf_buffer bytes) offset)
unfolding deobf_buffer
deobf_buffer_twice bytes offset h =
    (deobf_from_twice 0 bytes h, length-deobf_from 0 bytes, deobf_u32-raw_u32 bytes offset)
