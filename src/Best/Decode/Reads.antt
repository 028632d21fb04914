-- ===== src/Best/Decode/Reads.antt =====
-- crates/best/src/decode.rs: what the reads of the decoder leave behind.
use klartext.Prelude.{
  ℕ, zero, suc, ◌+◌, ◌-◌, ◌≤◌, ◌<◌, ◌≡◌, refl, sym, subst, ◌∙◌, inl, inr, ◌&&◌, Option, none, some,
  List, [], ◌∷◌, length, get_elem?, get_range?, leb, if◌then◌else◌, Result, ok, err, panic, arith,
  IsByte, All, Bool-cases,
}
use klartext.Best.Decode.{
  RegBank, bank_b, bank_i, bank_l, bank_s, bank_f, RegId, IndexArg, imm_index, reg_index, Operand,
  reg, indexed, DecodeError, Reader, DecodeM, ◌>>=◌, pure, lift, read_u8, read_bytes, read_u16_le,
  read_u32_le, register, in_range, reg_id,
}

-- The number of registers of a bank.
unfoldable pub bank_size : RegBank → ℕ
bank_size bank_b = 32
bank_size bank_i = 16
bank_size bank_l = 8
bank_size bank_s = 16
bank_size bank_f = 8

abbrev pub RegisterInRange : RegId → Type 0
RegisterInRange id = id.idx < bank_size id.bank

abbrev pub IndexInRange : IndexArg → Type 0
IndexInRange (imm_index n) = Unit
IndexInRange (reg_index id) = RegisterInRange id

abbrev pub LengthInRange : Option IndexArg → Type 0
LengthInRange none = Unit
LengthInRange (some index) = IndexInRange index

-- Every register that an operand names exists.
abbrev pub OperandInRange : Operand → Type 0
OperandInRange (reg bank idx) = idx < bank_size bank
OperandInRange (indexed base index len) =
    RegisterInRange base × IndexInRange index × LengthInRange len
OperandInRange _ = Unit

-- A read by at least `k` bytes within the code, whose value satisfies `P`, or an error; no panic.
abbrev pub After :
    {A : Type 0} → (A → Type 0) → ℕ → Reader → Result DecodeError (A × Reader) → Type 0
After P k r (ok s) = P s.0 × (s.1.code ≡ r.code) × (r.pos + k ≤ s.1.pos) × (s.1.pos ≤ length r.code)
After P k r (err e) = Unit
After P k r panic = ⊥

pub record Yields {A : Type 0} (P : A → Type 0) (k : ℕ) (m : DecodeM A) : Type 0 where
  pub after : (r : Reader) → r.pos ≤ length r.code → All IsByte r.code → After P k r (m r)

pub pure-Yields : {A : Type 0} (P : A → Type 0) (a : A) → P a → Yields P 0 (pure a)
pure-Yields P a p = record { after = λ r h b. (p, refl, omega arith, h) }

pub weaken :
    {A : Type 0} (P : A → Type 0) (k j : ℕ) (m : DecodeM A) → j ≤ k → Yields P k m → Yields P j m
weaken {A} P k j m le y = record { after = λ r h b. split r (m r) (y.after r h b) }
  where
    split : (r : Reader) (s : Result DecodeError (A × Reader)) → After P k r s → After P j r s
    split r (ok s) (p, c, far, within) = (p, c, omega arith, within)
    split r (err e) a = tt
    split r panic a = a

pub bind-Yields :
    {A B : Type 0} (P : A → Type 0) (Q : B → Type 0) (k j : ℕ) (m : DecodeM A) (f : A → DecodeM B)
    → Yields P k m
    → ((a : A) → P a → Yields Q j (f a))
    → Yields Q (k + j) (m >>= f)
bind-Yields {A} {B} P Q k j m f y z = record {
  after = λ r h b. first r b (m r) refl (y.after r h b);
}
  where
    second :
        (r r₁ : Reader)
        → r₁.code ≡ r.code
        → r.pos + k ≤ r₁.pos
        → (s : Result DecodeError (B × Reader)) → After Q j r₁ s
        → After Q (k + j) r s
    second r r₁ c far (ok s) (q, c₁, far₁, within₁) =
        (q, c₁ ∙ c, omega arith, subst (λ xs. s.1.pos ≤ length xs) c within₁)
    second r r₁ c far (err e) a = tt
    second r r₁ c far panic a = a

    first :
        (r : Reader)
        → All IsByte r.code
        → (s : Result DecodeError (A × Reader)) → m r ≡ s
        → After P k r s
        → After Q (k + j) r (◌>>=◌ m f r)
    first r b (ok s) e (p, c, far, within) =
        let bound : s.1.pos ≤ length s.1.code = subst (λ xs. s.1.pos ≤ length xs) (sym c) within in
        rw (e, ◌>>=◌)
          (second r s.1 c far (f s.0 s.1)
            ((z s.0 p).after s.1 bound (subst (All IsByte) (sym c) b)))
    first r b (err x) e a = rw (e, ◌>>=◌) tt
    first r b panic e a = absurd a

abbrev pub Anything : {A : Type 0} → A → Type 0
Anything a = Unit

pub read_u8-Yields : Yields IsByte 1 read_u8
unfolding read_u8
read_u8-Yields = record { after = λ r h b. split r b (get_elem? r.code r.pos) refl }
  where
    element :
        (xs : List ℕ) (i : ℕ) {x : ℕ}
        → All IsByte xs
        → get_elem? xs i ≡ some x
        → IsByte x × (i < length xs)
    element [] i b e = cc
    element (x ∷ xs) zero b e = (subst IsByte (cc) b.0, omega arith)
    element (x ∷ xs) (suc i) b e = let (p, q) = element xs i b.1 e in (p, omega arith)

    split :
        (r : Reader)
        → All IsByte r.code
        → (b : Option ℕ) → get_elem? r.code r.pos ≡ b
        → After IsByte 1 r (read_u8 r)
    split r b none e = rw (e, read_u8) tt
    split r b (some x) e =
        let (p, q) = element r.code r.pos b e in rw (e, read_u8) (p, refl, omega arith, omega arith)

pub read_bytes-Yields : (n : ℕ) → Yields Anything n (read_bytes n)
unfolding read_bytes get_range?
read_bytes-Yields n = record { after = λ r h b. split r h }
  where
    split : (r : Reader) → r.pos ≤ length r.code → After Anything n r (read_bytes n r)
    split r h = elim (Bool-cases (leb r.pos (r.pos + n) && leb (r.pos + n) (length r.code))) [
      | inl e ↦ rw (e, read_bytes, get_range?) (tt, refl, omega arith, ground (arith, e))
      | inr e ↦ rw (e, read_bytes, get_range?) tt
    ]

pub read_u16_le-Yields : Yields Anything 2 read_u16_le
unfolding read_u16_le
read_u16_le-Yields =
    bind-Yields IsByte Anything 1 1 _ _ read_u8-Yields
      λ lo _. bind-Yields IsByte Anything 1 0 _ _ read_u8-Yields λ hi _. pure-Yields Anything _ tt

pub read_u32_le-Yields : Yields Anything 4 read_u32_le
unfolding read_u32_le
read_u32_le-Yields = bind-Yields IsByte Anything 1 3 _ _ read_u8-Yields λ b0 _.
    bind-Yields IsByte Anything 1 2 _ _ read_u8-Yields λ b1 _.
      bind-Yields IsByte Anything 1 1 _ _ read_u8-Yields
        λ b2 _. bind-Yields IsByte Anything 1 0 _ _ read_u8-Yields λ b3 _. pure-Yields Anything _ tt

-- A computed result that is no panic, and whose value satisfies `P`.
abbrev pub Holds : {A : Type 0} → (A → Type 0) → Result DecodeError A → Type 0
Holds P (ok a) = P a
Holds P (err e) = Unit
Holds P panic = ⊥

pub lift-Yields :
    {A : Type 0} (P : A → Type 0) (s : Result DecodeError A) → Holds P s → Yields P 0 (lift s)
lift-Yields P (ok a) p = pure-Yields P a p
lift-Yields P (err e) p = record { after = λ r h b. tt }
lift-Yields P panic p = absurd p

-- One row of the register table.
row-Holds :
    (lo hi n : ℕ) (bank : RegBank) (idx : ℕ) (rest : Result DecodeError RegId)
    → (lo ≤ n → n ≤ hi → idx < bank_size bank)
    → Holds RegisterInRange rest
    → Holds RegisterInRange (if in_range lo hi n then reg_id bank idx else rest)
row-Holds lo hi n bank idx rest fits h = elim (Bool-cases (leb lo n && leb n hi)) [
  | inl e ↦ rw e (fits (ground (arith, e)) (ground (arith, e)))
  | inr e ↦ rw e h
]

-- The register table names registers that exist.
pub register-InRange : (n : ℕ) → Holds RegisterInRange (register n)
unfolding register bank_size
register-InRange n =
    row-Holds 0x00 0x0f n bank_b n _ (λ h k. omega arith)
      (row-Holds 0x10 0x17 n bank_i (n - 0x10) _ (λ h k. omega arith)
        (row-Holds 0x18 0x1b n bank_l (n - 0x18) _ (λ h k. omega arith)
          (row-Holds 0x1c 0x23 n bank_s (n - 0x1c) _ (λ h k. omega arith)
            (row-Holds 0x24 0x2b n bank_f (n - 0x24) _ (λ h k. omega arith)
              (row-Holds 0x2c 0x33 n bank_s (n - 0x2c + 8) _ (λ h k. omega arith)
                (row-Holds 0x80 0x8f n bank_b (n - 0x80 + 16) _ (λ h k. omega arith)
                  (row-Holds 0x90 0x97 n bank_i (n - 0x90 + 8) _ (λ h k. omega arith)
                    (row-Holds 0x98 0x9b n bank_l (n - 0x98 + 4) _ (λ h k. omega arith) tt))))))))
