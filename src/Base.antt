-- ===== src/Base.antt =====
-- Names that the other modules share: the libraries', passed on, with the Boolean tests and the
-- list functions over the native numbers. It models no code of its own.
mod Tests
mod Lists
mod Tables
mod Sort
mod Texts
mod Keys
mod Claims
mod Members
mod Int
pub use Tests.*
pub use Lists.*
pub use Tables.*
unfoldable pub use Sort.*
unfoldable pub use Texts.*
pub use Keys.*
pub use Claims.*
pub use Members.*
pub use Int.*
pub use Prim.Native.Nat.{ℕ, zero, suc, ◌+◌, ◌-◌, ◌*◌, ◌^◌, ◌≤◌, ◌<◌, min, max}
pub use Prim.Native.String.{String}
pub use mathlib.Core.Path.{◌≡◌, refl, sym, ap, ◌∙◌}
pub use mathlib.Core.Logic.{◌≢◌, ◌⊎◌, inl, inr}
pub use mathlib.Core.Bool.{Bool, true, false, not, ◌&&◌, ◌||◌}
pub use mathlib.Core.Option.{Option, none, some}
pub use mathlib.Core.List.{List, [], ◌∷◌, ◌++◌, map}
pub use native.Mathlib.Omega.{arith}
pub use text.Mathlib.TextEquality.{eq_iff}
