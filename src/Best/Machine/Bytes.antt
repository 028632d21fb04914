-- ===== src/Best/Machine/Bytes.antt =====
-- crates/best/src/machine.rs: the integer banks are views of one register file.
use klartext.Prelude.{
  ℕ, zero, suc, ◌+◌, ◌-◌, ◌*◌, ◌≤◌, ◌<◌, ◌≡◌, refl, sym, ap, subst, ◌∙◌, some, List, [], ◌∷◌,
  length, get_elem?, get_range?, take, drop, ok, to_le_bytes, from_le_bytes, overwrite, IsByte, All,
  arith, length-overwrite, le→leb, All-append, All-split, take-append-drop,
}
use klartext.Best.Decode.{RegBank, bank_b, bank_i, bank_l}
use klartext.Best.Decode.Reads.{bank_size}
use klartext.Best.Machine.{int, Machine, with_regs, read_file, write_file, read_reg}

-- The file and the banks of `S` and `F` keep their sizes, and the file holds bytes.
pub record IsMachine {F : Type 0} (m : Machine F) : Type 0 where
  pub regs_size : length m.regs ≡ 32
  pub regs_bytes : All IsByte m.regs
  pub s_size : length m.s ≡ 16
  pub f_size : length m.f ≡ 8

-- An integer bank with the bytes of one of its registers.
pub data IntBank : RegBank → ℕ → Type 0 where
  one_byte : IntBank bank_b 1
  two_bytes : IntBank bank_i 2
  four_bytes : IntBank bank_l 4

pub within_file :
    (bank : RegBank) (w idx : ℕ) → IntBank bank w → idx < bank_size bank → idx * w + w ≤ 32
unfolding bank_size
within_file _ _ idx one_byte h = omega arith
within_file _ _ idx two_bytes h = omega arith
within_file _ _ idx four_bytes h = omega arith

All-overwrite :
    {A : Type 0} (P : A → Type 0) (xs : List A) (start : ℕ) (ys : List A)
    → All P xs
    → All P ys
    → All P (overwrite xs start ys)
All-overwrite P xs start ys hx hy =
    let (front, _) =
      All-split P (take start xs) (drop start xs)
        (subst (All P) (sym (take-append-drop start xs)) hx) in
    let (_, back) =
      All-split P (take (start + length ys) xs) (drop (start + length ys) xs)
        (subst (All P) (sym (take-append-drop (start + length ys) xs)) hx) in
    All-append P (take start xs) _ front (All-append P ys _ hy back)

pub take_one :
    {A : Type 0} (xs : List A) (i : ℕ) {x : A}
    → get_elem? xs i ≡ some x
    → take 1 (drop i xs) ≡ x ∷ []
take_one [] i e = cc
take_one (x ∷ xs) zero e = cc
take_one (x ∷ xs) (suc i) e = take_one xs i e

module _ {F : Type 0} (m : Machine F) (w : IsMachine m) where
  get_range?-file :
      (lo n : ℕ) → lo + n ≤ 32 → get_range? m.regs lo (lo + n) ≡ some (take n (drop lo m.regs))
  unfolding get_range?
  get_range?-file lo n h =
      let size = w.regs_size in
      let all : lo + n - lo ≡ n = omega arith in
      rw (le→leb lo (lo + n) (omega arith), le→leb (lo + n) (length m.regs) (omega arith), all) refl

  pub read_file-ok :
      (bank : RegBank) (idx n : ℕ)
      → idx * n + n ≤ 32
      → read_file m bank idx n ≡ ok (int (from_le_bytes (take n (drop (idx * n) m.regs))))
  unfolding read_file
  read_file-ok bank idx n h = rw (get_range?-file (idx * n) n h, read_file) refl

  pub write_file-ok :
      (bank : RegBank) (idx n v : ℕ)
      → idx * n + n ≤ 32
      → write_file m bank idx n v ≡ ok (with_regs m (overwrite m.regs (idx * n) (to_le_bytes n v)))
  unfolding write_file
  write_file-ok bank idx n v h =
      let size = w.regs_size in rw (le→leb (idx * n + n) (length m.regs) (omega arith)) refl

  -- A `B` register is a byte of the file.
  pub read_reg-byte :
      (j : ℕ) {b : ℕ} → get_elem? m.regs j ≡ some b → j < 32 → read_reg m bank_b j ≡ ok (int b)
  unfolding read_reg
  read_reg-byte j {b} e h =
      let one : j * 1 ≡ j = omega arith in
      let value : b + 0 * 256 ≡ b = omega arith in
      read_file-ok bank_b j 1 (omega arith)
      ∙ rw one (rw (take_one m.regs j e) (ap (λ n. ok (int n)) value))

  pub with_regs-IsMachine :
      (start : ℕ) (bs : List ℕ)
      → start + length bs ≤ 32
      → All IsByte bs
      → IsMachine (with_regs m (overwrite m.regs start bs))
  with_regs-IsMachine start bs h b = record {
    regs_size =
        omega (arith, w.regs_size, length-overwrite m.regs start bs (omega (arith, w.regs_size)));
    regs_bytes = All-overwrite IsByte m.regs start bs w.regs_bytes b;
    s_size = w.s_size;
    f_size = w.f_size;
  }
