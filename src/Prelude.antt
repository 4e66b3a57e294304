-- ===== src/Prelude.antt =====
-- Shared names, passed on from the libraries and from the children of this module: tests on
-- numbers, lists indexed by numbers, predicates on lists, signed integers, byte strings and maps.
mod Tests
mod Lists
mod Quantifiers
pub mod Int
pub mod Text
pub mod Dict
pub mod Fnv
pub mod Sort
pub use Tests.*
pub use Lists.*
pub use Quantifiers.*
pub use Prim.Native.Nat.{ℕ, zero, suc, ◌+◌, ◌-◌, ◌*◌, ◌/◌, ◌%◌, ◌^◌, ◌≤◌, ◌<◌, min, max}
pub use mathlib.Core.Path.{◌≡◌, refl, sym, ap, ◌∙◌, subst}
pub use mathlib.Core.Logic.{◌≢◌, ◌↔◌, ◌⊎◌, inl, inr}
pub use mathlib.Core.Bool.{Bool, true, false, not, ◌&&◌, ◌||◌}
pub use mathlib.Core.Option.{Option, none, some}
pub use mathlib.Core.List.{List, [], ◌∷◌, ◌++◌, map, append_assoc, append-nil}
pub use native.Mathlib.Omega.{arith}
