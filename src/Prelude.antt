-- ===== src/Prelude.antt =====
-- The names that every module shares: the libraries', passed on, and those of the children: tests
-- on numbers, lists over the native numbers, results, and tables over one byte.
mod Tests
mod Lists
mod Ranges
mod Results
mod Bytes
pub use Tests.*
pub use Lists.*
pub use Ranges.*
unfoldable pub use Results.{index, slice, get_range?, get_from?}
pub use Results.*
unfoldable pub use Bytes.{all_within}
pub use Bytes.*
pub use Prim.Native.Nat.{ℕ, zero, suc, ◌+◌, ◌-◌, ◌*◌, ◌/◌, ◌%◌, ◌^◌, ◌≤◌, ◌<◌, bit_and, bit_or}
pub use mathlib.Core.Path.{◌≡◌, refl, sym, ap, ap₂, subst, ◌∙◌}
pub use mathlib.Core.Logic.{◌≢◌, ◌↔◌, ◌⊎◌, inl, inr}
pub use mathlib.Core.Bool.{Bool, true, false, not, ◌&&◌, ◌||◌}
pub use mathlib.Core.Option.{Option, none, some, some-injective}
pub use mathlib.Core.List.{List, [], ◌∷◌, ◌++◌, map, foldl, foldl-append, append-nil, append_assoc}
pub use native.Mathlib.Omega.{arith}
