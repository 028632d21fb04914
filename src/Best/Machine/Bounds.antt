-- ===== src/Best/Machine/Bounds.antt =====
-- crates/best/src/machine.rs: operands whose registers exist are read and written without
-- `OutOfRange`, and a write leaves a machine.
use klartext.Prelude.{
  ℕ, zero, suc, ◌+◌, ◌*◌, ◌≤◌, ◌<◌, ◌≡◌, refl, sym, subst, ◌∙◌, inl, inr, Bool, Option, none, some,
  List, [], ◌∷◌, length, set, ltb, Result, ok, err, panic, map_ok, ◌>>=◌, arith, get_elem?-some,
  lt→ltb, All, Bool-cases, length-to_le_bytes, to_le_bytes-All, IsByte, le→leb, to_le_bytes,
}
use klartext.Best.Decode.{
  RegBank, bank_b, bank_i, bank_l, bank_s, bank_f, RegId, IndexArg, imm_index, reg_index, Operand,
  no_operand, imm, str, reg, indexed, Op, decode_job,
}
use klartext.Best.Decode.Reads.{bank_size, IndexInRange, OperandInRange}
use klartext.Best.Decode.Operands.{OpInRange}
use klartext.Best.Decode.Walk.{IsAt, Tiles, decode_job-Tiles, Ends}
use klartext.Best.Machine.{
  Value, int, float, bytes, Unsupported, MachineError, out_of_range, index_out_of_bounds,
  unsupported, Machine, with_s, with_f, read_file, write_file, read_reg, write_reg, resolve_index,
  indexed_base, read_indexed, read, stored_bytes, put_s, write_at, write_indexed, write, tail_from,
  slice_at, array_max_size, swap_s_slice, swap_range,
}
use klartext.Best.Machine.Bytes.{
  IsMachine, IntBank, one_byte, two_bytes, four_bytes, within_file, read_file-ok, write_file-ok,
  with_regs-IsMachine,
}

-- A result that is no `OutOfRange` and no abort, and whose value satisfies `P`.
abbrev pub Found : {A : Type 0} → (A → Type 0) → Result MachineError A → Type 0
Found P (ok a) = P a
Found P (err (out_of_range bank idx)) = ⊥
Found P (err _) = Unit
Found P panic = ⊥

abbrev pub Any : {A : Type 0} → A → Type 0
Any a = Unit

bind-Found :
    {A B : Type 0} (P : A → Type 0) (Q : B → Type 0) (t : Result MachineError A)
    (f : A → Result MachineError B)
    → Found P t
    → ((a : A) → P a → Found Q (f a))
    → Found Q (t >>= f)
bind-Found P Q (ok a) f p next = next a p
bind-Found P Q (err (index_out_of_bounds i n)) f p next = tt
bind-Found P Q (err (unsupported u)) f p next = tt
bind-Found P Q (err (out_of_range bank idx)) f p next = absurd p
bind-Found P Q panic f p next = absurd p

map_ok-Found :
    {A B : Type 0} (f : A → B) (t : Result MachineError A) → Found Any t → Found Any (map_ok f t)
map_ok-Found f (ok a) p = tt
map_ok-Found f (err (index_out_of_bounds i n)) p = tt
map_ok-Found f (err (unsupported u)) p = tt
map_ok-Found f (err (out_of_range bank idx)) p = absurd p
map_ok-Found f panic p = absurd p

length-set : {A : Type 0} (xs : List A) (i : ℕ) (x : A) → length (set xs i x) ≡ length xs
length-set [] i x = refl
length-set (y ∷ ys) zero x = refl
length-set (y ∷ ys) (suc i) x = omega (arith, length-set ys i x)

module _ {F : Type 0} (m : Machine F) (w : IsMachine m) where
  file-Found :
      {bank : RegBank} (n idx : ℕ)
      → IntBank bank n
      → idx < bank_size bank
      → Found Any (read_file m bank idx n)
  file-Found {bank} n idx kind h =
      subst (Found Any) (sym (read_file-ok m w bank idx n (within_file bank n idx kind h))) tt

  read_reg-Found :
      (bank : RegBank) (idx : ℕ) → idx < bank_size bank → Found Any (read_reg m bank idx)
  unfolding read_reg bank_size
  read_reg-Found bank_b idx h = file-Found 1 idx one_byte h
  read_reg-Found bank_i idx h = file-Found 2 idx two_bytes h
  read_reg-Found bank_l idx h = file-Found 4 idx four_bytes h
  read_reg-Found bank_s idx h =
      let (b, e) = get_elem?-some m.s idx (omega (arith, w.s_size)) in rw (e, read_reg) tt
  read_reg-Found bank_f idx h =
      let (x, e) = get_elem?-some m.f idx (omega (arith, w.f_size)) in rw (e, read_reg) tt

  pub resolve_index-Found :
      (index : IndexArg) → IndexInRange index → Found Any (resolve_index m index)
  unfolding resolve_index
  resolve_index-Found (imm_index v) h = tt
  resolve_index-Found (reg_index id) h =
      bind-Found Any Any _ _ (read_reg-Found id.bank id.idx h) number
    where
      number :
          (value : Value F)
          → Any value
          → Found Any (elim value [
            | int v ↦ ok v
            | float x ↦ err (unsupported Unsupported.int_index)
            | bytes b ↦ err (unsupported Unsupported.int_index)
          ])
      number (int v) p = tt
      number (float x) p = tt
      number (bytes b) p = tt

  base-Found :
      (bank : RegBank) (idx : ℕ)
      → idx < bank_size bank
      → Found Any (indexed_base m record { bank = bank; idx = idx })
  unfolding indexed_base bank_size
  base-Found bank_b idx h = tt
  base-Found bank_i idx h = tt
  base-Found bank_l idx h = tt
  base-Found bank_s idx h =
      let (b, e) = get_elem?-some m.s idx (omega (arith, w.s_size)) in rw (e, indexed_base) tt
  base-Found bank_f idx h = tt

  tail_from-Found : (buffer : List ℕ) (idx : ℕ) → Found Any (tail_from buffer idx)
  unfolding tail_from
  tail_from-Found buffer idx = elim (Bool-cases (ltb array_max_size (idx + 1))) [
    | inl e ↦ rw (e, tail_from) tt
    | inr e ↦ rw (e, tail_from) tt
  ]

  slice_at-Found : (buffer : List ℕ) (idx n : ℕ) → Found Any (slice_at buffer idx n)
  unfolding slice_at
  slice_at-Found buffer idx n = elim (Bool-cases (ltb array_max_size (idx + n))) [
    | inl e ↦ rw (e, slice_at) tt
    | inr e ↦ rw (e, slice_at) tt
  ]

  read_indexed-Found :
      (base : RegId) (index : IndexArg) (len : Option IndexArg)
      → OperandInRange (indexed base index len)
      → Found Any (read_indexed m base index len)
  unfolding read_indexed
  read_indexed-Found base index none (h, k, j) =
      bind-Found Any Any _ _ (base-Found base.bank base.idx h) λ buffer _.
        bind-Found Any Any _ _ (resolve_index-Found index k)
          λ idx _. map_ok-Found bytes _ (tail_from-Found buffer idx)
  read_indexed-Found base index (some len) (h, k, j) =
      bind-Found Any Any _ _ (base-Found base.bank base.idx h) λ buffer _.
        bind-Found Any Any _ _ (resolve_index-Found index k) λ idx _.
          bind-Found Any Any _ _ (resolve_index-Found len j)
            λ n _. map_ok-Found bytes _ (slice_at-Found buffer idx n)

  pub read-Found : (op : Operand) → OperandInRange op → Found Any (read m op)
  unfolding read
  read-Found no_operand h = tt
  read-Found (imm v) h = tt
  read-Found (str b) h = tt
  read-Found (reg bank idx) h = read_reg-Found bank idx h
  read-Found (indexed base index len) h = read_indexed-Found base index len h

  write_file-Found :
      {bank : RegBank} (n idx v : ℕ)
      → IntBank bank n
      → idx < bank_size bank
      → Found IsMachine (write_file m bank idx n v)
  write_file-Found {bank} n idx v kind h =
      let fits = within_file bank n idx kind h in
      subst (Found IsMachine) (sym (write_file-ok m w bank idx n v fits)) (
        with_regs-IsMachine m w (idx * n) (to_le_bytes n v)
          (omega (arith, fits, length-to_le_bytes n v)) (to_le_bytes-All n v))

  with_s-IsMachine : (idx : ℕ) (b : List ℕ) → IsMachine (with_s m (set m.s idx b))
  with_s-IsMachine idx b = record {
    regs_size = w.regs_size;
    regs_bytes = w.regs_bytes;
    s_size = length-set m.s idx b ∙ w.s_size;
    f_size = w.f_size;
  }

  with_f-IsMachine : (idx : ℕ) (x : F) → IsMachine (with_f m (set m.f idx x))
  with_f-IsMachine idx x = record {
    regs_size = w.regs_size;
    regs_bytes = w.regs_bytes;
    s_size = w.s_size;
    f_size = length-set m.f idx x ∙ w.f_size;
  }

  write_reg-Found :
      (bank : RegBank) (idx : ℕ) (value : Value F)
      → idx < bank_size bank
      → Found IsMachine (write_reg m bank idx value)
  unfolding write_reg bank_size
  write_reg-Found bank_b idx (int v) h = write_file-Found 1 idx v one_byte h
  write_reg-Found bank_i idx (int v) h = write_file-Found 2 idx v two_bytes h
  write_reg-Found bank_l idx (int v) h = write_file-Found 4 idx v four_bytes h
  write_reg-Found bank_s idx (bytes b) h =
      rw (lt→ltb idx (length m.s) (omega (arith, w.s_size))) (with_s-IsMachine idx b)
  write_reg-Found bank_f idx (float x) h =
      rw (lt→ltb idx (length m.f) (omega (arith, w.f_size))) (with_f-IsMachine idx x)
  write_reg-Found bank_b idx (float x) h = tt
  write_reg-Found bank_b idx (bytes b) h = tt
  write_reg-Found bank_i idx (float x) h = tt
  write_reg-Found bank_i idx (bytes b) h = tt
  write_reg-Found bank_l idx (float x) h = tt
  write_reg-Found bank_l idx (bytes b) h = tt
  write_reg-Found bank_s idx (int v) h = tt
  write_reg-Found bank_s idx (float x) h = tt
  write_reg-Found bank_f idx (int v) h = tt
  write_reg-Found bank_f idx (bytes b) h = tt

  put_s-Found :
      (idx : ℕ) (change : List ℕ → List ℕ) → idx < 16 → Found IsMachine (put_s m idx change)
  unfolding put_s
  put_s-Found idx change h =
      let (b, e) = get_elem?-some m.s idx (omega (arith, w.s_size)) in
      rw (e, put_s) (with_s-IsMachine idx (change b))

  pub swap_s_slice-Found :
      (base : RegId) (start len : ℕ)
      → OperandInRange (reg base.bank base.idx)
      → Found IsMachine (swap_s_slice m base start len)
  unfolding swap_s_slice bank_size
  swap_s_slice-Found base start len h = go base.bank h
    where
      go :
          (bank : RegBank)
          → base.idx < bank_size bank
          → Found IsMachine (swap_s_slice m record { bank = bank; idx = base.idx } start len)
      go bank_b h = tt
      go bank_i h = tt
      go bank_l h = tt
      go bank_f h = tt
      go bank_s h = put_s-Found base.idx (λ buffer. swap_range buffer start len) h

  write_at-Found : (n idx : ℕ) (b : List ℕ) → n < 16 → Found IsMachine (write_at m n idx b)
  unfolding write_at
  write_at-Found n idx b h = elim (Bool-cases (ltb array_max_size (idx + length b))) [
    | inl e ↦ rw (e, write_at) tt
    | inr e ↦ rw (e, write_at) (put_s-Found n _ h)
  ]

  stored_bytes-Found : (value : Value F) (n : ℕ) → n ≤ 8 → Found Any (stored_bytes value n)
  unfolding stored_bytes
  stored_bytes-Found (int v) n h = rw (le→leb n 8 h) tt
  stored_bytes-Found (bytes b) n h = tt
  stored_bytes-Found (float x) n h = tt

  pub write_indexed-Found :
      (base : RegId) (index : IndexArg) (len : Option IndexArg) (value : Value F) (n : ℕ)
      → OperandInRange (indexed base index len)
      → n ≤ 8
      → Found IsMachine (write_indexed m (indexed base index len) value n)
  unfolding write_indexed bank_size
  write_indexed-Found base index len value n (h, k, j) le = go base.bank base.idx h
    where
      go :
          (bank : RegBank) (idx : ℕ)
          → idx < bank_size bank
          → Found IsMachine
              (write_indexed m (indexed record { bank = bank; idx = idx } index len) value n)
      go bank_b idx h = tt
      go bank_i idx h = tt
      go bank_l idx h = tt
      go bank_f idx h = tt
      go bank_s idx h = bind-Found Any IsMachine _ _ (stored_bytes-Found value n le) λ b _.
          bind-Found Any IsMachine _ _ (resolve_index-Found index k) λ i _. write_at-Found idx i b h

  -- A write to an operand whose registers exist leaves a machine with its sizes, or fails for the
  -- operand's or the value's kind or for the bound on a buffer, never for a register out of range.
  pub write-Found :
      (op : Operand) (value : Value F) → OperandInRange op → Found IsMachine (write m op value)
  unfolding write
  write-Found no_operand value h = tt
  write-Found (imm v) value h = tt
  write-Found (str b) value h = tt
  write-Found (reg bank idx) value h = write_reg-Found bank idx value h
  write-Found (indexed base index len) value h =
      write_indexed-Found base index len value 1 h (omega arith)

-- Whether both operands of an instruction are found.
abbrev pub BothFound : {F : Type 0} → Machine F → Op → Type 0
BothFound m op = Found Any (read m op.arg0) × Found Any (read m op.arg1)

-- No instruction that the decoder yields reads a register out of range, on any machine.
pub decode_job-Found :
    {F : Type 0} (m : Machine F) (code : List ℕ) (ops : List Op)
    → IsMachine m
    → All IsByte code
    → decode_job code ≡ some (ok ops)
    → All (BothFound m) ops
unfolding IsAt OpInRange
decode_job-Found m code ops w b e =
    let (own, end, tiles, within, ends) = decode_job-Tiles code b in
    subst (All (BothFound m)) (same own end ends) (found 0 own end tiles)
  where
    found : (start : ℕ) (xs : List Op) (end : ℕ) → Tiles code start xs end → All (BothFound m) xs
    found start [] end t = tt
    found start (op ∷ xs) end ((_, _, _, _, _, (p, q)), t) =
        ((read-Found m w op.arg0 p, read-Found m w op.arg1 q), found (start + op.len) xs end t)

    same :
        (own : List Op) (end : ℕ) {seen : Bool}
        → Ends code own seen end (decode_job code)
        → own ≡ ops
    same own end (inl (_, q)) = cc
    same own end (inr (x, _, inl (_, q))) = cc
    same own end (inr (x, _, inr (_, q))) = cc
