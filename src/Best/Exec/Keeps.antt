-- ===== src/Best/Exec/Keeps.antt =====
-- crates/best/src/exec.rs: actions that leave the machine with its sizes, with a rule for each way to
-- build an action.
use Prim.Native.String.{String}
use klartext.Prelude.{
  ℕ, ◌-◌, ◌^◌, ◌≤◌, ◌≡◌, refl, Bool, true, false, Option, none, some, [], ◌==◌, if◌then◌else◌,
  bit_and, Result, ok, err, panic, arith,
}
use klartext.Best.Decode.{
  bank_b, bank_i, bank_l, bank_s, bank_f, RegId, IndexArg, Operand, no_operand, imm, str, reg,
  indexed,
}
use klartext.Best.Decode.Reads.{OperandInRange}
use klartext.Best.Machine.{
  Flags, Value, int, float, bytes, MachineError, out_of_range, index_out_of_bounds, unsupported,
  Machine, read, write, write_indexed,
}
use klartext.Best.Machine.Bytes.{IsMachine}
use klartext.Best.Machine.Bounds.{Found, Any, read-Found, write-Found, write_indexed-Found}
use klartext.Best.Exec.{
  ExecError, machine, trapped, Flow, next, exchange, ExecM, ◌>>=◌, lift, pure, set_error,
  trap_bit_unmapped, arg_width, arith_arg0_len, set_flags, write_to, read_source,
  write_indexed_dest, int_of, read_int,
}

-- Neither an abort nor a register out of range.
abbrev pub Sound : ExecError → Type 0
Sound (machine (out_of_range bank idx)) = ⊥
Sound _ = Unit

abbrev pub Post : {A : Type 0} → (A → Type 0) → Result ExecError A → Type 0
Post Q (ok a) = Q a
Post Q (err e) = Sound e
Post Q panic = ⊥

-- The destination of an exchange is an operand whose registers exist.
abbrev pub FlowInRange : Flow → Type 0
FlowInRange (exchange frame dest) = OperandInRange dest
FlowInRange _ = Unit

abbrev Good : {F A : Type 0} → (A → Type 0) → Result ExecError A × Machine F → Type 0
Good Q out = IsMachine out.1 × Post Q out.0

pub record Keeps {F A : Type 0} (Q : A → Type 0) (act : ExecM F A) : Type 0 where
  pub at : (m : Machine F) → IsMachine m → IsMachine (act m).1 × Post Q (act m).0

module _ {F A : Type 0} {Q : A → Type 0} where
  pub Keeps-lift : (r : Result ExecError A) → Post Q r → Keeps {F = F} Q (lift r)
  Keeps-lift r p = record { at = λ m w. (w, p) }

  pub Keeps-pure : (a : A) → Q a → Keeps {F = F} Q (pure a)
  Keeps-pure a q = record { at = λ m w. (w, q) }

  pub Keeps-if : (b : Bool) (x y : ExecM F A) → Keeps Q x → Keeps Q y → Keeps Q (if b then x else y)
  Keeps-if true x y kx ky = kx
  Keeps-if false x y kx ky = ky

  -- A choice made before the machine is looked at.
  pub Keeps-test :
      (b : Bool) (x y : ExecM F A) → Keeps Q x → Keeps Q y → Keeps Q (λ m. if b then x m else y m)
  Keeps-test true x y kx ky = kx
  Keeps-test false x y kx ky = ky

module _ {F A B : Type 0} (P : A → Type 0) {Q : B → Type 0} (act : ExecM F A)
    (f : A → ExecM F B) where
  -- The rest of a block may use what the action's value satisfies.
  pub Keeps-bind-with : Keeps P act → ((a : A) → P a → Keeps Q (f a)) → Keeps Q (act >>= f)
  Keeps-bind-with k kf = record { at = λ m w. go (act m) (k.at m w) }
    where
      go :
          (first : Result ExecError A × Machine F)
          → IsMachine first.1 × Post P first.0
          → Good {F = F} Q (elim first.0 [
            | ok a ↦ f a first.1
            | err e ↦ (err e, first.1)
            | panic ↦ (panic, first.1)
          ])
      go (ok a, m) (w, p) = (kf a p).at m w
      go (err e, m) (w, p) = (w, p)
      go (panic, m) (w, p) = absurd p

module _ {F A B : Type 0} {Q : B → Type 0} where
  pub Keeps-bind :
      (act : ExecM F A) (f : A → ExecM F B)
      → Keeps Any act
      → ((a : A) → Keeps Q (f a))
      → Keeps Q (act >>= f)
  Keeps-bind act f k kf = Keeps-bind-with Any act f k (λ a _. kf a)

-- A width that an integer is stored with.
abbrev pub Width : ℕ → Type 0
Width n = n ≤ 8

pub arg_width-Post : (mnemonic : String) (op : Operand) → Post Width (arg_width mnemonic op)
unfolding arg_width
arg_width-Post mnemonic no_operand = tt
arg_width-Post mnemonic (imm v) = tt
arg_width-Post mnemonic (str b) = tt
arg_width-Post mnemonic (reg bank_b idx) = omega arith
arg_width-Post mnemonic (reg bank_i idx) = omega arith
arg_width-Post mnemonic (reg bank_l idx) = omega arith
arg_width-Post mnemonic (reg bank_s idx) = tt
arg_width-Post mnemonic (reg bank_f idx) = tt
arg_width-Post mnemonic (indexed base index len) = tt

pub widened : {A : Type 0} (P : A → Type 0) (r : Result ExecError A) → Post P r → Post Any r
widened P (ok a) p = tt
widened P (err e) p = p
widened P panic p = p

arith_arg0_len-Post : (mnemonic : String) (op : Operand) → Post Any (arith_arg0_len mnemonic op)
unfolding arith_arg0_len arg_width
arith_arg0_len-Post mnemonic (indexed base index none) = tt
arith_arg0_len-Post mnemonic (indexed base index (some len)) = tt
arith_arg0_len-Post mnemonic no_operand = tt
arith_arg0_len-Post mnemonic (imm v) = tt
arith_arg0_len-Post mnemonic (str b) = tt
arith_arg0_len-Post mnemonic (reg bank idx) =
    widened Width _ (arg_width-Post mnemonic (reg bank idx))

module _ {F : Type 0} where
  pub Keeps-next : Keeps {F = F} FlowInRange (pure next)
  Keeps-next = record { at = λ m w. (w, tt) }

  pub Keeps-arg_width :
      (mnemonic : String) (op : Operand) → Keeps {F = F} Any (lift (arg_width mnemonic op))
  Keeps-arg_width mnemonic op =
      Keeps-lift (arg_width mnemonic op) (widened Width _ (arg_width-Post mnemonic op))

  pub Keeps-arith_arg0_len :
      (mnemonic : String) (op : Operand) → Keeps {F = F} Any (lift (arith_arg0_len mnemonic op))
  Keeps-arith_arg0_len mnemonic op =
      Keeps-lift (arith_arg0_len mnemonic op) (arith_arg0_len-Post mnemonic op)

  -- A change outside the registers and the buffers.
  pub sizes :
      {m m' : Machine F} → m'.regs ≡ m.regs → m'.s ≡ m.s → m'.f ≡ m.f → IsMachine m → IsMachine m'
  sizes a b c w = record {
    regs_size = rw a w.regs_size;
    regs_bytes = rw a w.regs_bytes;
    s_size = rw b w.s_size;
    f_size = rw c w.f_size;
  }

  pub Keeps-set_flags : (change : Flags → Flags) → Keeps {F = F} Any (set_flags change)
  Keeps-set_flags change = record { at = λ m w. (sizes refl refl refl w, tt) }

  pub Keeps-set_error : (bit : ℕ) → Keeps {F = F} Any (set_error bit)
  Keeps-set_error bit = record {
    at =
        λ m w. (sizes refl refl refl w, either (bit_and (2 ^ bit) (2 ^ 64 - 1 - m.trap_mask) == 0));
  }
    where
      either : (b : Bool) → Post {A = Unit {0}} Any (if b then ok tt else err (trapped bit))
      either true = tt
      either false = tt

  pub Keeps-write_to :
      (op : Operand) (value : Value F) → OperandInRange op → Keeps Any (write_to op value)
  Keeps-write_to op value h = record {
    at = λ m w. go m w (write m op value) (write-Found m w op value h);
  }
    where
      go :
          (m : Machine F)
          → IsMachine m
          → (r : Result MachineError (Machine F)) → Found IsMachine r
          → Good {F = F} {A = Unit {0}} Any
              (elim r [ ok m' ↦ (ok tt, m') | err e ↦ (err (machine e), m) | panic ↦ (panic, m) ])
      go m w (ok m') p = (p, tt)
      go m w (err (index_out_of_bounds i n)) p = (w, tt)
      go m w (err (unsupported u)) p = (w, tt)
      go m w (err (out_of_range bank idx)) p = absurd p
      go m w panic p = absurd p

  pub Keeps-read_source : (op : Operand) → OperandInRange op → Keeps {F = F} Any (read_source op)
  unfolding read_source
  Keeps-read_source op h = record { at = λ m w. go m w (read m op) (read-Found m w op h) }
    where
      go :
          (m : Machine F)
          → IsMachine m
          → (r : Result MachineError (Value F)) → Found Any r
          → Good {F = F} {A = Value F} Any (elim r [
            | ok value ↦ (ok value, m)
            | err e ↦ elim e [
              | index_out_of_bounds index len ↦
                  (set_error trap_bit_unmapped >>= λ u. pure (bytes [])) m
              | other ↦ (err (machine other), m)
            ]
            | panic ↦ (panic, m)
          ])
      go m w (ok value) p = (w, tt)
      go m w (err (index_out_of_bounds i n)) p =
          (Keeps-bind {Q = Any} (set_error trap_bit_unmapped) (λ u. pure (bytes []))
              (Keeps-set_error trap_bit_unmapped) (λ u. Keeps-pure (bytes []) tt)).at
            m w
      go m w (err (unsupported u)) p = (w, tt)
      go m w (err (out_of_range bank idx)) p = absurd p
      go m w panic p = absurd p

  pub Keeps-write_indexed_dest :
      (base : RegId) (index : IndexArg) (len : Option IndexArg) (value : Value F) (n : ℕ)
      → OperandInRange (indexed base index len)
      → Width n
      → Keeps Any (write_indexed_dest (indexed base index len) value n)
  unfolding write_indexed_dest
  Keeps-write_indexed_dest base index len value n h le = record {
    at = λ m w.
        go m w (write_indexed m (indexed base index len) value n)
          (write_indexed-Found m w base index len value n h le);
  }
    where
      go :
          (m : Machine F)
          → IsMachine m
          → (r : Result MachineError (Machine F)) → Found IsMachine r
          → Good {F = F} {A = Unit {0}} Any (elim r [
            | ok m' ↦ (ok tt, m')
            | err e ↦ elim e [
              | index_out_of_bounds i k ↦ set_error trap_bit_unmapped m
              | other ↦ (err (machine other), m)
            ]
            | panic ↦ (panic, m)
          ])
      go m w (ok m') p = (p, tt)
      go m w (err (index_out_of_bounds i k)) p = (Keeps-set_error trap_bit_unmapped).at m w
      go m w (err (unsupported u)) p = (w, tt)
      go m w (err (out_of_range bank idx)) p = absurd p
      go m w panic p = absurd p

  -- A store of one byte at an index.
  pub Keeps-write_one :
      (base : RegId) (index : IndexArg) (len : Option IndexArg) (value : Value F)
      → OperandInRange (indexed base index len)
      → Keeps Any (write_indexed_dest (indexed base index len) value 1)
  Keeps-write_one base index len value h =
      Keeps-write_indexed_dest base index len value 1 h (omega arith)

  Keeps-int_of :
      (mnemonic : String) (len : ℕ) (value : Value F) → Keeps Any (int_of mnemonic len value)
  unfolding int_of
  Keeps-int_of mnemonic len (int v) = Keeps-pure _ tt
  Keeps-int_of mnemonic len (bytes b) = Keeps-pure _ tt
  Keeps-int_of mnemonic len (float x) = Keeps-lift _ tt

  pub Keeps-read_int :
      (mnemonic : String) (op : Operand) (len : ℕ)
      → OperandInRange op
      → Keeps {F = F} Any (read_int mnemonic op len)
  unfolding read_int
  Keeps-read_int mnemonic op len h =
      Keeps-bind (read_source op) (int_of mnemonic len) (Keeps-read_source op h)
        (Keeps-int_of mnemonic len)

pub ruleset keeps_rules = (
  Keeps-pure, Keeps-next, Keeps-arg_width, Keeps-arith_arg0_len, Keeps-set_flags, Keeps-set_error,
  Keeps-write_to, Keeps-read_source, Keeps-read_int, Keeps-write_one, Keeps-bind,
)
