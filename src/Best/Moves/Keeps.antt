-- ===== src/Best/Moves/Keeps.antt =====
-- crates/best/src/exec.rs: the moves, the shifts, the products and the quotients on a machine with its
-- sizes.
use Prim.Native.String.{String}
use klartext.Prelude.{
  ℕ, ◌+◌, Bool, true, false, Option, none, some, List, ltb, if◌then◌else◌, Result, ok, err, panic,
}
use klartext.Best.Decode.{
  bank_b, bank_i, bank_l, bank_s, bank_f, RegId, IndexArg, Operand, no_operand, imm, str, reg,
  indexed, Op,
}
use klartext.Best.Decode.Reads.{OperandInRange, IndexInRange}
use klartext.Best.Machine.{
  Value, int, float, bytes, MachineError, out_of_range, index_out_of_bounds, unsupported, Machine,
  resolve_index, swap_s_slice, array_max_size,
}
use klartext.Best.Machine.Bytes.{IsMachine}
use klartext.Best.Machine.Bounds.{Found, Any, resolve_index-Found, swap_s_slice-Found}
use klartext.Best.Exec.{
  ExecError, machine, invalid_operand, divide_by_zero, Flow, next, ExecM, ◌>>=◌, lift, pure,
  arg_width, set_error, trap_bit_unmapped, read_source,
}
use klartext.Best.Exec.Keeps.{
  Keeps, keeps_rules, FlowInRange, Post, Width, arg_width-Post, Keeps-lift, Keeps-pure, Keeps-test,
  Keeps-next, Keeps-bind, Keeps-bind-with, Keeps-read_source, Keeps-write_to,
  Keeps-write_indexed_dest, Keeps-set_error,
}
use klartext.Best.Moves.{
  Shift, shift_left, shift_right, shift_sign, op_shift, op_shift_left, op_lsr, op_asr, read_bytes,
  zero_of, op_clear, resolve, swap_at, swap_operand, op_swap, move_indexed, move_float, move_to,
  op_move,
}
use klartext.Best.Products.{undivided, store_second, quotient, remainder, op_mult, op_divs}

module _ {F : Type 0} where
  pub Keeps-read_bytes :
      (mnemonic : String) (op : Operand)
      → OperandInRange op
      → Keeps {F = F} Any (read_bytes mnemonic op)
  unfolding read_bytes
  Keeps-read_bytes mnemonic op h = Keeps-bind (read_source op) _ (Keeps-read_source op h) value_of
    where
      value_of :
          (value : Value F)
          → Keeps {F = F} {A = List ℕ} Any
              (elim value [ bytes b ↦ pure b | _ ↦ lift (err (invalid_operand mnemonic)) ])
      value_of (int v) = Keeps-lift _ tt
      value_of (float x) = Keeps-lift _ tt
      value_of (bytes b) = Keeps-pure b tt

  zero_of-Post : (zero : F) (op : Operand) → Post Any (zero_of zero op)
  unfolding zero_of
  zero_of-Post zero no_operand = tt
  zero_of-Post zero (imm v) = tt
  zero_of-Post zero (str b) = tt
  zero_of-Post zero (reg bank_b idx) = tt
  zero_of-Post zero (reg bank_i idx) = tt
  zero_of-Post zero (reg bank_l idx) = tt
  zero_of-Post zero (reg bank_s idx) = tt
  zero_of-Post zero (reg bank_f idx) = tt
  zero_of-Post zero (indexed base index len) = tt

  Keeps-zero_of : (zero : F) (op : Operand) → Keeps {F = F} Any (lift (zero_of zero op))
  Keeps-zero_of zero op = Keeps-lift (zero_of zero op) (zero_of-Post zero op)

  Keeps-resolve : (index : IndexArg) → IndexInRange index → Keeps {F = F} Any (resolve index)
  Keeps-resolve index h = record {
    at = λ m w. go m w (resolve_index m index) (resolve_index-Found m w index h);
  }
    where
      go :
          (m : Machine F)
          → IsMachine m
          → (r : Result MachineError ℕ) → Found Any r
          → let out : Result ExecError ℕ × Machine F = elim r [
            | ok n ↦ (ok n, m)
            | err e ↦ (err (machine e), m)
            | panic ↦ (panic, m)
          ] in
            IsMachine out.1 × Post Any out.0
      go m w (ok n) p = (w, tt)
      go m w (err (index_out_of_bounds i n)) p = (w, tt)
      go m w (err (unsupported u)) p = (w, tt)
      go m w (err (out_of_range bank idx)) p = absurd p
      go m w panic p = absurd p

  Keeps-swap :
      (base : RegId) (start len : ℕ)
      → OperandInRange (reg base.bank base.idx)
      → Keeps {F = F} FlowInRange (λ m. elim (swap_s_slice m base start len) [
        | ok m' ↦ (ok next, m')
        | err e ↦ (err (machine e), m)
        | panic ↦ (panic, m)
      ])
  Keeps-swap base start len h = record {
    at = λ m w. go m w (swap_s_slice m base start len) (swap_s_slice-Found m w base start len h);
  }
    where
      go :
          (m : Machine F)
          → IsMachine m
          → (r : Result MachineError (Machine F)) → Found IsMachine r
          → let out : Result ExecError Flow × Machine F = elim r [
            | ok m' ↦ (ok next, m')
            | err e ↦ (err (machine e), m)
            | panic ↦ (panic, m)
          ] in
            IsMachine out.1 × Post FlowInRange out.0
      go m w (ok m') p = (p, tt)
      go m w (err (index_out_of_bounds i n)) p = (w, tt)
      go m w (err (unsupported u)) p = (w, tt)
      go m w (err (out_of_range bank idx)) p = absurd p
      go m w panic p = absurd p

  Keeps-swap_at :
      (base : RegId) (start len : ℕ)
      → OperandInRange (reg base.bank base.idx)
      → Keeps {F = F} FlowInRange (swap_at base start len)
  unfolding swap_at
  Keeps-swap_at base start len h =
      Keeps-test (ltb array_max_size (start + len)) (set_error trap_bit_unmapped >>= λ u. pure next)
        _
        (Keeps-bind (set_error trap_bit_unmapped) (λ u. pure next)
          (Keeps-set_error trap_bit_unmapped) (λ u. Keeps-next))
        (Keeps-swap base start len h)

  Keeps-swap_operand :
      (op : Operand) → OperandInRange op → Keeps {F = F} FlowInRange (swap_operand op)
  unfolding swap_operand
  Keeps-swap_operand no_operand h = Keeps-lift _ tt
  Keeps-swap_operand (imm v) h = Keeps-lift _ tt
  Keeps-swap_operand (str b) h = Keeps-lift _ tt
  Keeps-swap_operand (reg bank idx) h = Keeps-lift _ tt
  Keeps-swap_operand (indexed base index none) h = Keeps-lift _ tt
  Keeps-swap_operand (indexed base index (some len)) (h, k, j) =
      Keeps-bind (resolve index) _ (Keeps-resolve index k)
        λ start. Keeps-bind (resolve len) _ (Keeps-resolve len j) λ n. Keeps-swap_at base start n h

  Keeps-move_indexed :
      (base : RegId) (index : IndexArg) (len : Option IndexArg) (value : Value F)
      → OperandInRange (indexed base index len)
      → Keeps {F = F} FlowInRange (move_indexed (indexed base index len) value)
  unfolding move_indexed
  Keeps-move_indexed base index len (int v) h = search keeps_rules depth 12
  Keeps-move_indexed base index len (bytes b) h = search keeps_rules depth 12
  Keeps-move_indexed base index len (float x) h = Keeps-lift _ tt

  Keeps-move_float :
      (op : Operand) (value : Value F)
      → OperandInRange op
      → Keeps {F = F} FlowInRange (move_float op value)
  unfolding move_float
  Keeps-move_float op (int v) h = Keeps-lift _ tt
  Keeps-move_float op (bytes b) h = Keeps-lift _ tt
  Keeps-move_float op (float x) h = search keeps_rules depth 12

ruleset move_rules = (keeps_rules, Keeps-read_bytes, Keeps-zero_of)

module _ {F : Type 0} where
  Keeps-move_to :
      (arg0 arg1 : Operand)
      → OperandInRange arg0
      → OperandInRange arg1
      → Keeps {F = F} FlowInRange (move_to arg0 arg1)
  unfolding move_to
  Keeps-move_to (reg bank_s idx) arg1 h k = search move_rules depth 12
  Keeps-move_to (reg bank_f idx) arg1 h k =
      Keeps-bind (read_source arg1) _ (Keeps-read_source arg1 k)
        λ value. Keeps-move_float (reg bank_f idx) value h
  Keeps-move_to (indexed base index len) arg1 h k =
      Keeps-bind (read_source arg1) _ (Keeps-read_source arg1 k)
        λ value. Keeps-move_indexed base index len value h
  Keeps-move_to no_operand arg1 h k = search move_rules depth 12
  Keeps-move_to (imm v) arg1 h k = search move_rules depth 12
  Keeps-move_to (str b) arg1 h k = search move_rules depth 12
  Keeps-move_to (reg bank_b idx) arg1 h k = search move_rules depth 12
  Keeps-move_to (reg bank_i idx) arg1 h k = search move_rules depth 12
  Keeps-move_to (reg bank_l idx) arg1 h k = search move_rules depth 12

  Keeps-store_second :
      (op : Operand) (value len : ℕ)
      → OperandInRange op
      → Width len
      → Keeps {F = F} Any (store_second op value len)
  unfolding store_second
  Keeps-store_second no_operand value len h w = Keeps-pure tt tt
  Keeps-store_second (imm v) value len h w = Keeps-pure tt tt
  Keeps-store_second (str b) value len h w = Keeps-pure tt tt
  Keeps-store_second (reg bank idx) value len h w = Keeps-write_to (reg bank idx) (int value) h
  Keeps-store_second (indexed base index n) value len h w =
      Keeps-write_indexed_dest base index n (int value) len h w

divided-Post : (b : Bool) (n : ℕ) → Post Any (if b then err divide_by_zero else ok n)
divided-Post true n = tt
divided-Post false n = tt

module _ {F : Type 0} where
  Keeps-quotient : (v0 v1 : ℕ) → Keeps {F = F} Any (lift (quotient v0 v1))
  unfolding quotient
  Keeps-quotient v0 v1 = Keeps-lift (quotient v0 v1) (divided-Post (undivided v0 v1) _)

  Keeps-remainder : (v0 v1 : ℕ) → Keeps {F = F} Any (lift (remainder v0 v1))
  unfolding remainder
  Keeps-remainder v0 v1 = Keeps-lift (remainder v0 v1) (divided-Post (undivided v0 v1) _)

module _ {F : Type 0} {Q : Flow → Type 0} where
  Keeps-bind-Width :
      (mnemonic : String) (op : Operand) (f : ℕ → ExecM F Flow)
      → ((len : ℕ) → Width len → Keeps Q (f len))
      → Keeps Q (lift (arg_width mnemonic op) >>= f)
  Keeps-bind-Width mnemonic op f kf =
      Keeps-bind-with Width _ f (Keeps-lift _ (arg_width-Post mnemonic op)) kf

ruleset product_rules =
    (Keeps-bind-Width, keeps_rules, Keeps-quotient, Keeps-remainder, Keeps-store_second)

module _ {F : Type 0} (op : Op) (h : OperandInRange op.arg0) (k : OperandInRange op.arg1) where
  pub op_move-Keeps : Keeps {F = F} FlowInRange (op_move op)
  unfolding op_move
  op_move-Keeps = Keeps-move_to op.arg0 op.arg1 h k

  pub op_clear-Keeps : (zero : F) → Keeps {F = F} FlowInRange (op_clear zero op)
  unfolding op_clear
  op_clear-Keeps zero = search move_rules depth 12

  pub op_swap-Keeps : Keeps {F = F} FlowInRange (op_swap op)
  unfolding op_swap
  op_swap-Keeps = Keeps-swap_operand op.arg0 h

  op_shift-Keeps :
      (mnemonic : String) (shifted : Shift)
      → Keeps {F = F} FlowInRange (op_shift mnemonic shifted op)
  unfolding op_shift
  op_shift-Keeps mnemonic shifted = search keeps_rules depth 12

  pub op_shift_left-Keeps :
      (mnemonic : String) → Keeps {F = F} FlowInRange (op_shift_left mnemonic op)
  unfolding op_shift_left
  op_shift_left-Keeps mnemonic = op_shift-Keeps mnemonic shift_left

  pub op_lsr-Keeps : Keeps {F = F} FlowInRange (op_lsr op)
  unfolding op_lsr
  op_lsr-Keeps = op_shift-Keeps "lsr" shift_right

  pub op_asr-Keeps : Keeps {F = F} FlowInRange (op_asr op)
  unfolding op_asr
  op_asr-Keeps = op_shift-Keeps "asr" shift_sign

  pub op_mult-Keeps : Keeps {F = F} FlowInRange (op_mult op)
  unfolding op_mult
  op_mult-Keeps = search product_rules depth 12

  pub op_divs-Keeps : Keeps {F = F} FlowInRange (op_divs op)
  unfolding op_divs
  op_divs-Keeps = search product_rules depth 12
