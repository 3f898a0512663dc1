-- ===== src/Base.antt =====
-- Names that every module of the development shares: the libraries', passed on, and those of
-- its children: Boolean tests, lists measured by native numbers, outcomes, sorting and integers.
mod Tests
mod Lists
mod Finds
mod Outcome
mod Sort
pub mod Int
pub use Tests.*
pub use Lists.*
pub use Finds.*
pub use Outcome.*
unfoldable pub use Sort.{insert_by, sort_by}
pub use Sort.{total, length-sort_by, sort_by-All, total-sort_by}
pub use Prim.Native.Nat.{ℕ, zero, suc, ◌+◌, ◌-◌, ◌*◌, ◌/◌, ◌%◌, ◌^◌, ◌≤◌, ◌<◌}
pub use mathlib.Core.Path.{◌≡◌, refl, sym, ap, ap₂, subst, ◌∙◌, ◌≡⟨◌⟩◌, ◌∎}
pub use mathlib.Core.Logic.{◌≢◌, ◌↔◌, ◌⊎◌, inl, inr}
pub use mathlib.Core.Bool.{Bool, true, false, not, ◌&&◌, ◌||◌}
pub use mathlib.Core.Option.{Option, none, some}
pub use mathlib.Core.List.{List, [], ◌∷◌, ◌++◌, map, filter_map, append_assoc, append-nil}
pub use native.Mathlib.Omega.{arith}
