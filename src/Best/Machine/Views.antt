-- ===== src/Best/Machine/Views.antt =====
-- crates/best/src/machine.rs: stores to the integer banks and what every other register then reads.
use klartext.Prelude.{
  ℕ, zero, suc, ◌+◌, ◌-◌, ◌*◌, ◌/◌, ◌%◌, ◌^◌, ◌≤◌, ◌<◌, ◌≡◌, refl, sym, ap, subst, ◌∙◌, ◌⊎◌, inl,
  inr, ◌&&◌, some, List, [], ◌∷◌, length, get_elem?, take, drop, leb, ltb, if◌then◌else◌, ok,
  to_le_bytes, from_le_bytes, overwrite, arith, length-to_le_bytes, to_le_bytes-All,
  get_elem?-overwrite_in, get_elem?-overwrite_out, range-overwrite, get_elem?-some, Bool-cases,
}
use native.Mathlib.Nat.{div-div-eq-div-mul}
use klartext.Best.Decode.{RegBank, bank_b, bank_i, bank_l}
use klartext.Best.Decode.Reads.{bank_size}
use klartext.Best.Machine.{int, Machine, with_regs, read_file, write_file, read_reg, write_reg}
use klartext.Best.Machine.Bytes.{
  IsMachine, IntBank, one_byte, two_bytes, four_bytes, within_file, read_file-ok, write_file-ok,
  read_reg-byte, with_regs-IsMachine,
}

-- The byte `k` of a number.
get_elem?-to_le_bytes :
    (count n k : ℕ) → k < count → get_elem? (to_le_bytes count n) k ≡ some (n / 256 ^ k % 256)
get_elem?-to_le_bytes zero n k h = absurd (omega arith)
get_elem?-to_le_bytes (suc count) n zero h =
    let same : n ≡ n / 256 ^ 0 = omega arith in ap (λ x. some (x % 256)) same
get_elem?-to_le_bytes (suc count) n (suc k) h =
    let power : 256 * 256 ^ k ≡ 256 ^ suc k = omega arith in
    get_elem?-to_le_bytes count (n / 256) k (omega arith)
    ∙ ap (λ x. some (x % 256)) (div-div-eq-div-mul n 256 (256 ^ k) ∙ ap (λ x. n / x) power)

-- An integer register is read from its bytes of the file, and written to them.
read_reg-int :
    {F : Type 0} (m : Machine F) {bank : RegBank} {w : ℕ} (idx : ℕ)
    → IntBank bank w
    → read_reg m bank idx ≡ read_file m bank idx w
unfolding read_reg
read_reg-int m idx one_byte = refl
read_reg-int m idx two_bytes = refl
read_reg-int m idx four_bytes = refl

write_reg-int :
    {F : Type 0} (m : Machine F) {bank : RegBank} {w : ℕ} (idx v : ℕ)
    → IntBank bank w
    → write_reg m bank idx (int v) ≡ write_file m bank idx w v
unfolding write_reg
write_reg-int m idx v one_byte = refl
write_reg-int m idx v two_bytes = refl
write_reg-int m idx v four_bytes = refl

from-to_le_bytes :
    {bank : RegBank} {w : ℕ} (v : ℕ)
    → IntBank bank w
    → from_le_bytes (to_le_bytes w v) ≡ v % 256 ^ w
from-to_le_bytes v one_byte = omega arith
from-to_le_bytes v two_bytes = omega arith
from-to_le_bytes v four_bytes = omega arith

-- The machine after a store of `v` to the `n` bytes of register `idx`.
abbrev after : {F : Type 0} → Machine F → (n idx v : ℕ) → Machine F
after m n idx v = with_regs m (overwrite m.regs (idx * n) (to_le_bytes n v))

module _ {F : Type 0} (m : Machine F) (w : IsMachine m) (n idx v : ℕ) (h : idx * n + n ≤ 32) where
  in_file : idx * n + length (to_le_bytes n v) ≤ length m.regs
  in_file = omega (arith, h, length-to_le_bytes n v, w.regs_size)

  after-IsMachine : IsMachine (after m n idx v)
  after-IsMachine =
      with_regs-IsMachine m w (idx * n) (to_le_bytes n v) (omega (arith, h, length-to_le_bytes n v))
        (to_le_bytes-All n v)

  read_reg-after :
      {bank : RegBank}
      → IntBank bank n
      → read_reg (after m n idx v) bank idx ≡ ok (int (v % 256 ^ n))
  read_reg-after {bank} kind =
      read_reg-int (after m n idx v) idx kind
      ∙ read_file-ok (after m n idx v) after-IsMachine bank idx n h
      ∙ ap (λ bs. ok (int (from_le_bytes bs)))
          (subst (λ k. take k (drop (idx * n) (after m n idx v).regs) ≡ to_le_bytes n v)
            (length-to_le_bytes n v) (range-overwrite m.regs (idx * n) (to_le_bytes n v) in_file))
      ∙ ap (λ x. ok (int x)) (from-to_le_bytes v kind)

  -- A byte of the file after the store: one of the number's, or the one that was there.
  byte-after :
      (j : ℕ)
      → j < 32
      → read_reg (after m n idx v) bank_b j ≡ (
          if leb (idx * n) j && ltb j (idx * n + n)
          then ok (int (v / 256 ^ (j - idx * n) % 256))
          else read_reg m bank_b j)
  byte-after j small = elim (Bool-cases (leb (idx * n) j && ltb j (idx * n + n))) [
    | inl e ↦ rw e (
        read_reg-byte (after m n idx v) after-IsMachine j
          (get_elem?-overwrite_in m.regs (idx * n) (to_le_bytes n v) j in_file (ground (arith, e))
              (ground (arith, e, len))
            ∙ get_elem?-to_le_bytes n v (j - idx * n) (ground (arith, e)))
          small)
    | inr e ↦
        let (b, q) = get_elem?-some m.regs j (omega (arith, w.regs_size)) in
        let out : (j < idx * n) ⊎ (idx * n + length (to_le_bytes n v) ≤ j) =
          ground (arith, e, len) in
        rw e (
          read_reg-byte (after m n idx v) after-IsMachine j
            (get_elem?-overwrite_out m.regs (idx * n) (to_le_bytes n v) j in_file out ∙ q) small
          ∙ sym (read_reg-byte m w j q small))
  ]
    where
      len : length (to_le_bytes n v) ≡ n
      len = length-to_le_bytes n v

-- A store of an integer to a register of an integer bank succeeds, leaves the file and the banks of
-- their sizes, and reads back as the number cut to the register's width. The byte `j` of the file
-- is the number's byte that falls there, or what it was.
pub write_reg-read_reg :
    {F : Type 0} (m : Machine F)
    → IsMachine m
    → (bank : RegBank) (n idx v j : ℕ) → IntBank bank n
    → idx < bank_size bank
    → j < 32
    → (m' : Machine F) × (write_reg m bank idx (int v) ≡ ok m')
      × IsMachine m'
      × (m'.s ≡ m.s)
      × (m'.f ≡ m.f)
      × (read_reg m' bank idx ≡ ok (int (v % 256 ^ n)))
      × (read_reg m' bank_b j ≡ (
          if leb (idx * n) j && ltb j (idx * n + n)
          then ok (int (v / 256 ^ (j - idx * n) % 256))
          else read_reg m bank_b j))
write_reg-read_reg m w bank n idx v j kind h small =
    let fits = within_file bank n idx kind h in
    (
      after m n idx v,
      write_reg-int m idx v kind ∙ write_file-ok m w bank idx n v fits,
      after-IsMachine m w n idx v fits,
      refl,
      refl,
      read_reg-after m w n idx v fits kind,
      byte-after m w n idx v fits j small,
    )

-- A range begins with the element at its start.
range-cons :
    {A : Type 0} (xs : List A) (i j n : ℕ) {x : A}
    → j ≡ suc i
    → get_elem? xs i ≡ some x
    → take (suc n) (drop i xs) ≡ x ∷ take n (drop j xs)
range-cons [] i j n next e = cc
range-cons (x ∷ xs) zero j n next e = rw next (cc)
range-cons (x ∷ xs) (suc i) j n next e = rw next (range-cons xs i (suc i) n refl e)

range_two :
    {A : Type 0} (xs : List A) (i j : ℕ) {x y : A}
    → j ≡ suc i
    → get_elem? xs i ≡ some x
    → get_elem? xs j ≡ some y
    → take 2 (drop i xs) ≡ x ∷ y ∷ []
range_two xs i j {x} next e q =
    range-cons xs i j 1 next e ∙ ap (λ t. x ∷ t) (range-cons xs j (suc j) 0 refl q)

-- The integer banks overlap: an `L` register is the number in four neighbouring `B` registers, and
-- two `I` registers are its halves.
pub read_reg_views :
    {F : Type 0} (m : Machine F)
    → IsMachine m
    → (n : ℕ) → n < 8
    → (b0 b1 b2 b3 : ℕ) × (read_reg m bank_b (n * 4) ≡ ok (int b0))
      × (read_reg m bank_b (n * 4 + 1) ≡ ok (int b1))
      × (read_reg m bank_b (n * 4 + 2) ≡ ok (int b2))
      × (read_reg m bank_b (n * 4 + 3) ≡ ok (int b3))
      × (read_reg m bank_i (n * 2) ≡ ok (int (b0 + b1 * 256)))
      × (read_reg m bank_i (n * 2 + 1) ≡ ok (int (b2 + b3 * 256)))
      × (read_reg m bank_l n ≡ ok (int (b0 + b1 * 256 + b2 * 256 ^ 2 + b3 * 256 ^ 3)))
unfolding read_reg
read_reg_views m w n h =
    let (b0, e0) = element (n * 4) (omega arith) in
    let (b1, e1) = element (n * 4 + 1) (omega arith) in
    let (b2, e2) = element (n * 4 + 2) (omega arith) in
    let (b3, e3) = element (n * 4 + 3) (omega arith) in
    let four : take 4 (drop (n * 4) m.regs) ≡ b0 ∷ b1 ∷ b2 ∷ b3 ∷ [] =
      range-cons m.regs (n * 4) (n * 4 + 1) 3 (omega arith) e0
      ∙ ap (λ t. b0 ∷ t) (range-cons m.regs (n * 4 + 1) (n * 4 + 2) 2 (omega arith) e1)
      ∙ ap (λ t. b0 ∷ b1 ∷ t) (range_two m.regs (n * 4 + 2) (n * 4 + 3) (omega arith) e2 e3) in
    (
      b0,
      b1,
      b2,
      b3,
      read_reg-byte m w (n * 4) e0 (omega arith),
      read_reg-byte m w (n * 4 + 1) e1 (omega arith),
      read_reg-byte m w (n * 4 + 2) e2 (omega arith),
      read_reg-byte m w (n * 4 + 3) e3 (omega arith),
      half (n * 2) (n * 4) (n * 4 + 1) b0 b1 (omega arith) (omega arith) (omega arith) e0 e1,
      half (n * 2 + 1) (n * 4 + 2) (n * 4 + 3) b2 b3 (omega arith) (omega arith) (omega arith) e2
          e3,
      read_file-ok m w bank_l n 4 (omega arith)
          ∙ ap (λ bs. ok (int (from_le_bytes bs))) four
          ∙ ap (λ x. ok (int x)) (omega arith),
    )
  where
    element : (i : ℕ) → i < 32 → (b : ℕ) × (get_elem? m.regs i ≡ some b)
    element i small = get_elem?-some m.regs i (omega (arith, w.regs_size))

    half :
        (k i j b c : ℕ)
        → k < 16
        → i ≡ k * 2
        → j ≡ suc i
        → get_elem? m.regs i ≡ some b
        → get_elem? m.regs j ≡ some c
        → read_reg m bank_i k ≡ ok (int (b + c * 256))
    half k i j b c small here next e q =
        read_reg-int m k two_bytes
        ∙ read_file-ok m w bank_i k 2 (omega arith)
        ∙ ap (λ bs. ok (int (from_le_bytes bs)))
            (ap (λ o. take 2 (drop o m.regs)) (sym here) ∙ range_two m.regs i j next e q)
        ∙ ap (λ x. ok (int x)) (omega arith)
