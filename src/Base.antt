-- ===== src/Base.antt =====
-- The names that the modules of the development share: those of the libraries, passed on, and
-- those of the children, about tests, lists, C integers and bytes. It models no code of its own.
mod Tests
mod Lists
mod Int
mod Bytes
mod Options
mod Text
pub use Tests.*
pub use Lists.*
pub use Int.*
pub use Bytes.*
pub use Options.*
unfoldable pub use Text.*
pub use Prim.Native.Nat.{ℕ, zero, suc, ◌+◌, ◌-◌, ◌*◌, ◌/◌, ◌%◌, ◌^◌, ◌≤◌, ◌<◌}
pub use mathlib.Core.Path.{◌≡◌, refl, sym, ap, ap₂, ◌∙◌, subst}
pub use mathlib.Core.Logic.{◌≢◌, ◌↔◌, ◌⊎◌, inl, inr}
pub use mathlib.Core.Bool.{Bool, true, false, not, ◌&&◌, ◌||◌}
pub use mathlib.Core.Option.{Option, none, some}
pub use mathlib.Core.List.{List, [], ◌∷◌, ◌++◌, map, append-nil, append_assoc}
pub use native.Mathlib.Omega.{arith}
