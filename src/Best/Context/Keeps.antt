-- ===== src/Best/Context/Keeps.antt =====
-- crates/best/src/exec.rs: the invariant of a run, of its machine, its results and its cursor, and the
-- instructions on results and arguments.
use Prim.Native.String.{String}
use klartext.Prelude.{
  ℕ, ◌%◌, ◌^◌, ◌<◌, ◌≡◌, refl, Bool, true, false, Option, none, some, List, [], ◌∷◌, ◌++◌, length,
  get_elem?, if◌then◌else◌, Result, ok, err, panic, arith, length-append,
}
use klartext.Sgbd.Cp1252.{Text}
use klartext.Sgbd.Program.{Table, is_empty}
use klartext.Best.Decode.{Operand, Op}
use klartext.Best.Decode.Reads.{OperandInRange}
use klartext.Best.Machine.Bytes.{IsMachine}
use klartext.Best.Machine.Bounds.{Any}
use klartext.Best.Exec.{ExecError, next, ExecM, arg_width}
use klartext.Best.Branches.{sign_extended}
use klartext.Best.Exec.Keeps.{
  Keeps, FlowInRange, Post, widened, Width, arg_width-Post, Keeps-set_flags, Keeps-write_to,
  Keeps-read_int,
}
use klartext.Best.Moves.Keeps.{Keeps-read_bytes}
use klartext.Best.Strings.Keeps.{Keeps-read_string, Keeps-write_string, Keeps-read_value_data}
use klartext.Best.Floats.{F64}
use klartext.Best.Floats.Keeps.{Keeps-read_float}
use klartext.Best.Products.{extend}
use klartext.Best.Results.{
  byte, word, dword, integer, Set, ResultData, last, change_last, current, push_named, new_set,
}
use klartext.Best.Context.{
  ExecCtx, State, CtxM, ◌>>=◌, lift, pure, on_machine, asks, push_result, op_erg_int, op_ergb,
  op_ergw, op_ergd, op_ergi, op_ergc, op_ergl, op_ergr, op_ergs, op_ergy, op_enewset, op_parl,
  op_pars, op_pary, op_parn, op_parr,
}

abbrev pub RowValid : Option Table → Option ℕ → Type 0
RowValid none row = ⊥
RowValid (some t) none = Unit
RowValid (some t) (some r) = r < length t.rows

abbrev pub CursorValid : List Table → (table row : Option ℕ) → Type 0
CursorValid tables none row = row ≡ none
CursorValid tables (some i) row = RowValid (get_elem? tables i) row

pub record IsState {F : Type 0} (s : State F) : Type 0 where
  pub machine_sizes : IsMachine s.0
  pub some_set : 0 < length s.1.results.sets
  pub cursor : CursorValid s.1.tables s.1.current_table s.1.current_row

pub record KeepsState {F A : Type 0} (Q : A → Type 0) (act : CtxM F A) : Type 0 where
  pub at : (s : State F) → IsState s → IsState (act s).1 × Post Q (act s).0

module _ {F A : Type 0} {Q : A → Type 0} where
  pub KeepsState-lift : (r : Result ExecError A) → Post Q r → KeepsState {F = F} Q (lift r)
  KeepsState-lift r p = record { at = λ s w. (w, p) }

  pub KeepsState-on_machine : (act : ExecM F A) → Keeps Q act → KeepsState Q (on_machine act)
  KeepsState-on_machine act k = record {
    at = λ s w.
        let (machine, post) = k.at s.0 w.machine_sizes in
        (record { machine_sizes = machine; some_set = w.some_set; cursor = w.cursor }, post);
  }

module _ {F A B : Type 0} (P : A → Type 0) {Q : B → Type 0} (act : CtxM F A)
    (f : A → CtxM F B) where
  pub KeepsState-bind-with :
      KeepsState P act → ((a : A) → P a → KeepsState Q (f a)) → KeepsState Q (act >>= f)
  KeepsState-bind-with k kf = record { at = λ s w. go (act s) (k.at s w) }
    where
      go :
          (first : Result ExecError A × State F)
          → IsState first.1 × Post P first.0
          → let out : Result ExecError B × State F = elim first.0 [
            | ok a ↦ f a first.1
            | err e ↦ (err e, first.1)
            | panic ↦ (panic, first.1)
          ] in
            IsState out.1 × Post Q out.0
      go (ok a, s) (w, p) = (kf a p).at s w
      go (err e, s) (w, p) = (w, p)
      go (panic, s) (w, p) = absurd p

module _ {F A B : Type 0} {Q : B → Type 0} where
  pub KeepsState-bind :
      (act : CtxM F A) (f : A → CtxM F B)
      → KeepsState Any act
      → ((a : A) → KeepsState Q (f a))
      → KeepsState Q (act >>= f)
  KeepsState-bind act f k kf = KeepsState-bind-with Any act f k (λ a _. kf a)

last-some : {A : Type 0} (xs : List A) → 0 < length xs → (x : A) × (last xs ≡ some x)
last-some [] h = absurd (omega arith)
last-some (x ∷ []) h = (x, refl)
last-some (x ∷ y ∷ xs) h = last-some (y ∷ xs) (omega arith)

length-change_last : {A : Type 0} (f : A → A) (xs : List A) → length (change_last f xs) ≡ length xs
length-change_last f [] = refl
length-change_last f (x ∷ []) = refl
length-change_last f (x ∷ y ∷ xs) = omega (arith, length-change_last f (y ∷ xs))

module _ {F : Type 0} where
  pub KeepsState-next : KeepsState {F = F} FlowInRange (pure next)
  KeepsState-next = record { at = λ s w. (w, tt) }

  pub KeepsState-asks : {A : Type 0} (f : ExecCtx F → A) → KeepsState Any (asks f)
  KeepsState-asks f = record { at = λ s w. (w, tt) }

  pub KeepsState-arg_width :
      (mnemonic : String) (op : Operand) → KeepsState {F = F} Any (lift (arg_width mnemonic op))
  KeepsState-arg_width mnemonic op =
      KeepsState-lift _ (widened Width _ (arg_width-Post mnemonic op))

  pub KeepsState-push_result :
      (name : Text) (value : ResultData F) → KeepsState FlowInRange (push_result name value)
  unfolding push_result push_named
  KeepsState-push_result name value = record {
    at = λ s w. go s w (last-some s.1.results.sets w.some_set);
  }
    where
      go :
          (s : State F)
          → IsState s
          → (set : Set F) × (last s.1.results.sets ≡ some set)
          → IsState (push_result name value s).1 × Post FlowInRange (push_result name value s).0
      go s w (set, e) =
          rw (e, push_result, push_named)
            (
              record {
                machine_sizes = w.machine_sizes;
                some_set = omega (
                  arith,
                  w.some_set,
                  length-change_last (λ pairs. pairs ++ (name, value) ∷ []) s.1.results.sets,
                );
                cursor = w.cursor;
              },
              tt,
            )

  pub op_enewset-Keeps : KeepsState {F = F} FlowInRange op_enewset
  unfolding op_enewset current new_set
  op_enewset-Keeps = record { at = λ s w. go s w (last-some s.1.results.sets w.some_set) }
    where
      either :
          (s : State F) (b : Bool)
          → IsState s
          → IsState (s.0, if b then s.1 else record s.1 { results = new_set s.1.results })
      either s true w = w
      either s false w = record {
        machine_sizes = w.machine_sizes;
        some_set = omega (arith, length-append s.1.results.sets ([] ∷ []));
        cursor = w.cursor;
      }

      go :
          (s : State F)
          → IsState s
          → (set : Set F) × (last s.1.results.sets ≡ some set)
          → IsState (op_enewset s).1 × Post FlowInRange (op_enewset s).0
      go s w (set, e) = rw (e, op_enewset, current) (either s (is_empty set) w, tt)

pub ruleset state_rules = (
  KeepsState-next, KeepsState-asks, KeepsState-arg_width, KeepsState-on_machine, KeepsState-bind,
  Keeps-set_flags, Keeps-write_to, Keeps-read_int, Keeps-read_bytes, Keeps-read_string,
  Keeps-write_string, Keeps-read_value_data, Keeps-read_float, KeepsState-push_result,
)

module _ {F : Type 0} (op : Op) (h : OperandInRange op.arg0) (k : OperandInRange op.arg1) where
  op_erg_int-Keeps :
      (mnemonic : String) (len : ℕ) (cast : ℕ → ResultData F)
      → KeepsState FlowInRange (op_erg_int mnemonic len cast op)
  unfolding op_erg_int
  op_erg_int-Keeps mnemonic len cast = search state_rules depth 12

  pub op_ergb-Keeps : KeepsState {F = F} FlowInRange (op_ergb op)
  unfolding op_ergb
  op_ergb-Keeps = op_erg_int-Keeps "ergb" 1 (λ v. byte (v % 2 ^ 8))

  pub op_ergw-Keeps : KeepsState {F = F} FlowInRange (op_ergw op)
  unfolding op_ergw
  op_ergw-Keeps = op_erg_int-Keeps "ergw" 2 (λ v. word (v % 2 ^ 16))

  pub op_ergd-Keeps : KeepsState {F = F} FlowInRange (op_ergd op)
  unfolding op_ergd
  op_ergd-Keeps = op_erg_int-Keeps "ergd" 4 dword

  pub op_ergi-Keeps : KeepsState {F = F} FlowInRange (op_ergi op)
  unfolding op_ergi
  op_ergi-Keeps = op_erg_int-Keeps "ergi" 2 (λ v. integer (sign_extended (extend v 16)))

  pub op_ergc-Keeps : KeepsState {F = F} FlowInRange (op_ergc op)
  unfolding op_ergc
  op_ergc-Keeps = op_erg_int-Keeps "ergc" 1 (λ v. integer (sign_extended (extend v 8)))

  pub op_ergl-Keeps : KeepsState {F = F} FlowInRange (op_ergl op)
  unfolding op_ergl
  op_ergl-Keeps = op_erg_int-Keeps "ergl" 4 (λ v. integer (sign_extended v))

  pub op_ergr-Keeps : KeepsState {F = F} FlowInRange (op_ergr op)
  unfolding op_ergr
  op_ergr-Keeps = search state_rules depth 14

  pub op_ergs-Keeps : KeepsState {F = F} FlowInRange (op_ergs op)
  unfolding op_ergs
  op_ergs-Keeps = search state_rules depth 14

  pub op_ergy-Keeps : KeepsState {F = F} FlowInRange (op_ergy op)
  unfolding op_ergy
  op_ergy-Keeps = search state_rules depth 14

  pub op_parl-Keeps : KeepsState {F = F} FlowInRange (op_parl op)
  unfolding op_parl
  op_parl-Keeps = search state_rules depth 14

  pub op_pars-Keeps : KeepsState {F = F} FlowInRange (op_pars op)
  unfolding op_pars
  op_pars-Keeps = search state_rules depth 14

  pub op_pary-Keeps : KeepsState {F = F} FlowInRange (op_pary op)
  unfolding op_pary
  op_pary-Keeps = search state_rules depth 14

  pub op_parn-Keeps : KeepsState {F = F} FlowInRange (op_parn op)
  unfolding op_parn
  op_parn-Keeps = search state_rules depth 14

pub op_parr-Keeps :
    (f64 : F64) (op : Op)
    → OperandInRange op.arg0
    → OperandInRange op.arg1
    → KeepsState FlowInRange (op_parr f64 op)
unfolding op_parr
op_parr-Keeps f64 op h k = search state_rules depth 14
