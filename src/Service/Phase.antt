-- ===== src/Service/Phase.antt =====
-- crates/service/src/phase.rs: the phases of a service function and their argument buffers. A
-- `String` is the list of its bytes, and a catalog id is a number.
use klartext.Prelude.{ℕ, Bool, true, false, List, [], ◌∷◌, ◌++◌, Option}

abbrev pub Text : Type 0
Text = List ℕ

pub data Phase : Type 0 where
  preset main reset : Phase

abbrev pub phase_eq : Phase → Phase → Bool
phase_eq preset preset = true
phase_eq main main = true
phase_eq reset reset = true
phase_eq _ _ = false

-- The derived order: the order of the lifecycle.
abbrev pub rank : Phase → ℕ
rank preset = 0
rank main = 1
rank reset = 2

pub record Invocation : Type 0 where
  pub function_id : ℕ
  pub title : Option Text
  pub phase : Phase
  pub args : List Text

-- `args.join(";")`
unfoldable pub join_args : List Text → Text
join_args [] = []
join_args (x ∷ []) = x
join_args (x ∷ xs) = x ++ 0x3b ∷ join_args xs

unfoldable pub arg_buffer : Invocation → Text
unfolding join_args
arg_buffer i = join_args i.args
