-- ===== src/Best/Exec/Stack.antt =====
-- crates/best/src/exec.rs: a comparison as an instruction, and the data stack.
use Prim.Native.String.{String}
use klartext.Prelude.{
  ℕ, suc, ◌+◌, ◌-◌, ◌*◌, ◌/◌, ◌%◌, ◌^◌, ◌≤◌, ◌<◌, ◌≡◌, refl, sym, ap, ◌∙◌, List, [], ◌∷◌, ◌++◌,
  append_assoc, length, length-append, get_elem?-append, take-append, le→ltb, Result, ok,
  to_le_bytes, length-to_le_bytes, arith,
}
use klartext.Best.Decode.{Operand, RegBank, Op}
use klartext.Best.Machine.{Value, int, Machine, read}
use klartext.Best.Machine.Bytes.{IntBank, one_byte, two_bytes, four_bytes}
use klartext.Best.Exec.{
  ExecError, Flow, next, ExecM, ◌>>=◌, lift, pure, as_u32, arith_arg0_len, read_source, read_int,
  sub_flags, int_of, set_flags, value_data_len,
}
use klartext.Best.Integers.{op_comp, push_bytes, op_push, pop_byte, pop_loop, pop_value}

module _ {F : Type 0} (m : Machine F) where
  -- To use that the first of two actions has succeeded.
  then :
      {A B : Type 0} (act : ExecM F A) (f : A → ExecM F B) {a : A} {m₁ : Machine F}
      → act m ≡ (ok a, m₁)
      → (act >>= f) m ≡ f a m₁
  then {A} {B} act f e =
      ap (λ (t : Result ExecError A × Machine F). ◌>>=◌ (λ (x : Machine F). t) f m) e

  read_source-ok :
      (op : Operand) {value : Value F} → read m op ≡ ok value → read_source op m ≡ (ok value, m)
  unfolding read_source
  read_source-ok op e = rw (e, read_source) refl

  read_int-ok :
      (mnemonic : String) (op : Operand) (len : ℕ) {v : ℕ}
      → read m op ≡ ok (int v)
      → v < 2 ^ 32
      → read_int mnemonic op len m ≡ (ok v, m)
  unfolding read_int int_of
  read_int-ok mnemonic op len {v} e small =
      let whole : as_u32 v ≡ v = omega (arith, small) in
      then (read_source op) (int_of mnemonic len) (read_source-ok op e) ∙ ap (λ x. (ok x, m)) whole

  -- `comp` of two integers sets the flags of their difference and nothing else.
  pub op_comp-flags :
      (op : Op) (len v0 v1 : ℕ)
      → arith_arg0_len "comp" op.arg0 ≡ ok len
      → read m op.arg0 ≡ ok (int v0)
      → read m op.arg1 ≡ ok (int v1)
      → v0 < 2 ^ 32
      → v1 < 2 ^ 32
      → op_comp op m ≡ (ok next, record m { flags = sub_flags m.flags v0 v1 len })
  unfolding op_comp
  op_comp-flags op len v0 v1 width e₀ e₁ h₀ h₁ =
      then (lift (arith_arg0_len "comp" op.arg0)) first (ap (λ r. (r, m)) width)
      ∙ then (read_int "comp" op.arg0 len) second (read_int-ok "comp" op.arg0 len e₀ h₀)
      ∙ then (read_int "comp" op.arg1 len) third (read_int-ok "comp" op.arg1 len e₁ h₁)
    where
      third : ℕ → ExecM F Flow
      third y = set_flags (λ flags. sub_flags flags v0 y len) >>= λ set. pure next

      second : ℕ → ExecM F Flow
      second x = read_int "comp" op.arg1 len >>= λ y.
          set_flags (λ flags. sub_flags flags x y len) >>= λ set. pure next

      first : ℕ → ExecM F Flow
      first n = read_int "comp" op.arg0 n >>= λ x. read_int "comp" op.arg1 n >>= λ y.
          set_flags (λ flags. sub_flags flags x y n) >>= λ set. pure next

pop_byte-snoc : (xs : List ℕ) (b : ℕ) → pop_byte (xs ++ b ∷ []) ≡ (b, xs)
pop_byte-snoc xs b =
    let last : length (xs ++ b ∷ []) - 1 ≡ length xs = omega (arith, length-append xs (b ∷ [])) in
    rw (last, get_elem?-append xs b []) (ap (λ t. (b, t)) (take-append xs (b ∷ [])))

pop_loop-snoc :
    (len value : ℕ) (xs : List ℕ) (b : ℕ)
    → pop_loop (suc len) value (xs ++ b ∷ []) ≡ pop_loop len (as_u32 (value * 256) + b) xs
unfolding pop_loop
pop_loop-snoc len value xs b =
    ap (λ (t : ℕ × List ℕ). pop_loop len (as_u32 (value * 256) + t.0) t.1) (pop_byte-snoc xs b)

pop_loop-done : (value : ℕ) (xs : List ℕ) (v : ℕ) → value ≡ v → pop_loop 0 value xs ≡ (v, xs)
unfolding pop_loop
pop_loop-done value xs v e = ap (λ x. (x, xs)) e

-- One turn of the loop on a stack with a byte behind `ys`.
pop_turn :
    (len value : ℕ) (xs ys : List ℕ) (b : ℕ)
    → pop_loop (suc len) value (xs ++ (ys ++ b ∷ []))
      ≡ pop_loop len (as_u32 (value * 256) + b) (xs ++ ys)
pop_turn len value xs ys b =
    ap (pop_loop (suc len) value) (sym (append_assoc xs ys (b ∷ [])))
    ∙ pop_loop-snoc len value (xs ++ ys) b

-- The loop of `pop` takes off what `push` has put on.
pop_loop-to_le_bytes :
    {bank : RegBank} {len : ℕ} (v : ℕ) (xs : List ℕ)
    → IntBank bank len
    → v < 256 ^ len
    → pop_loop len 0 (xs ++ to_le_bytes len v) ≡ (v, xs)
pop_loop-to_le_bytes v xs one_byte h =
    pop_loop-snoc 0 0 xs (v % 256) ∙ pop_loop-done _ xs v (omega (arith, h))
pop_loop-to_le_bytes v xs two_bytes h =
    pop_turn 1 0 xs (v % 256 ∷ []) (v / 256 % 256)
    ∙ pop_loop-snoc 0 _ xs (v % 256)
    ∙ pop_loop-done _ xs v (omega (arith, h))
pop_loop-to_le_bytes v xs four_bytes h =
    pop_turn 3 0 xs (v % 256 ∷ v / 256 % 256 ∷ v / 256 / 256 % 256 ∷ []) (v / 256 / 256 / 256 % 256)
    ∙ pop_turn 2 _ xs (v % 256 ∷ v / 256 % 256 ∷ []) (v / 256 / 256 % 256)
    ∙ pop_turn 1 _ xs (v % 256 ∷ []) (v / 256 % 256)
    ∙ pop_loop-snoc 0 _ xs (v % 256)
    ∙ pop_loop-done _ xs v (omega (arith, h))

in_u32 : {bank : RegBank} {len : ℕ} (v : ℕ) → IntBank bank len → v < 256 ^ len → v < 2 ^ 32
in_u32 v one_byte h = omega (arith, h)
in_u32 v two_bytes h = omega (arith, h)
in_u32 v four_bytes h = omega (arith, h)

module _ {F : Type 0} (m : Machine F) where
  op_push-ok :
      (op : Op) (len v : ℕ)
      → value_data_len (op.mode_byte / 16) op.arg0 "push" ≡ ok len
      → read m op.arg0 ≡ ok (int v)
      → v < 2 ^ 32
      → op_push op m ≡ (ok next, record m { data_stack = m.data_stack ++ to_le_bytes len v })
  unfolding op_push
  op_push-ok op len v width e h =
      then m (lift (value_data_len (op.mode_byte / 16) op.arg0 "push")) first
        (ap (λ r. (r, m)) width)
      ∙ then m (read_int "push" op.arg0 len) second (read_int-ok m "push" op.arg0 len e h)
    where
      second : ℕ → ExecM F Flow
      second x = push_bytes (to_le_bytes len x) >>= λ pushed. pure next

      first : ℕ → ExecM F Flow
      first n =
          read_int "push" op.arg0 n >>= λ x. push_bytes (to_le_bytes n x) >>= λ pushed. pure next

  pop_value-ok :
      (len v : ℕ) (xs : List ℕ)
      → len ≤ length m.data_stack
      → pop_loop len 0 m.data_stack ≡ (v, xs)
      → pop_value len m ≡ (ok v, record m { data_stack = xs })
  unfolding pop_value
  pop_value-ok len v xs enough e =
      rw (le→ltb (length m.data_stack) len enough, pop_value)
        (ap (λ (t : ℕ × List ℕ). (ok t.0, record m { data_stack = t.1 })) e)

-- A value pushed is the value popped at the same width, and the machine is what it was.
pub op_push-pop_value :
    {F : Type 0} (m : Machine F) (op : Op) (bank : RegBank) (len v : ℕ)
    → IntBank bank len
    → value_data_len (op.mode_byte / 16) op.arg0 "push" ≡ ok len
    → read m op.arg0 ≡ ok (int v)
    → v < 256 ^ len
    → (op_push op >>= λ f. pop_value len) m ≡ (ok v, m)
op_push-pop_value {F} m op bank len v kind width e h =
    let pushed : Machine F = record m { data_stack = m.data_stack ++ to_le_bytes len v } in
    then m (op_push op) (λ f. pop_value len) (op_push-ok m op len v width e (in_u32 v kind h))
    ∙ pop_value-ok pushed len v m.data_stack
        (omega (arith, length-append m.data_stack (to_le_bytes len v), length-to_le_bytes len v))
        (pop_loop-to_le_bytes v m.data_stack kind h)
