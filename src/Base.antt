-- ===== src/Base.antt =====
-- Names that the modules of certman share: the libraries', passed on, and those of the children:
-- Boolean tests, lists over native numbers, text, results and stateful actions.
mod Tests
mod Lists
mod Text
mod Members
mod Action
unfoldable pub use Tests.*
unfoldable pub use Lists.*
pub use Members.*
unfoldable pub use Text.*
unfoldable pub use Action.*
pub use Prim.Native.Nat.{ℕ, zero, suc, ◌+◌, ◌-◌, ◌*◌, ◌/◌, ◌%◌, ◌^◌, ◌≤◌, ◌<◌}
pub use Prim.Native.String.{String}
pub use mathlib.Core.Path.{◌≡◌, refl, sym, ap, ◌∙◌}
pub use mathlib.Core.Logic.{◌≢◌, ◌↔◌, ◌⊎◌, inl, inr}
pub use mathlib.Core.Bool.{Bool, true, false, not, ◌&&◌, ◌||◌}
pub use mathlib.Core.Option.{Option, none, some}
pub use mathlib.Core.List.{List, [], ◌∷◌, ◌++◌, map, append-nil, append_assoc, Memᴰ}
pub use native.Mathlib.Omega.{arith}
pub use text.Mathlib.TextEquality.{eq_iff}
