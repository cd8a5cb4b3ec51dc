-- ===== src/Prelude.antt =====
-- The names that every module shares: the libraries', passed on, and those of the children: tests
-- on numbers, lists over the native numbers, and predicates on lists.
mod Tests
mod Lists
mod Preds
mod Text
pub mod Int
pub use Tests.*
pub use Lists.*
pub use Preds.*
pub use Text.{
  Bytes, codes, bytes_eq→eq, bytes_eq_refl, split_at_lem, take_is, Lacks, split_at-append,
  split_at-none,
}
unfoldable pub use Text.{bytes_eq, split_at, decimal_onto, decimal, padded}
pub use Prim.Native.Nat.{ℕ, zero, suc, ◌+◌, ◌-◌, ◌*◌, ◌/◌, ◌%◌, ◌^◌, ◌≤◌, ◌<◌, min, max}
pub use mathlib.Core.Path.{◌≡◌, refl, sym, ap, ◌∙◌}
pub use mathlib.Core.Logic.{◌≢◌, ◌↔◌, ◌⊎◌, inl, inr}
pub use mathlib.Core.Bool.{Bool, true, false, not, ◌&&◌, ◌||◌}
pub use mathlib.Core.Option.{Option, none, some}
pub use mathlib.Core.List.{List, [], ◌∷◌, ◌++◌, map, append-nil, append_assoc}
pub use native.Mathlib.Omega.{arith}
