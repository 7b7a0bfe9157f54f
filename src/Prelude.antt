-- ===== src/Prelude.antt =====
-- The names that the modules share: the libraries', passed on, and those of its children.
mod Tests
mod Int
mod Func
mod Lists
mod Assoc
mod Names
pub use Tests.*
pub use Int.*
pub use Func.*
unfoldable pub use Lists.{take}
pub use Lists.*
unfoldable pub use Assoc.{lookup, delete, insert}
pub use Assoc.*
unfoldable pub use Names.{holds, without}
pub use Names.*
pub use Prim.Native.Nat.{ℕ, zero, suc, ◌+◌, ◌-◌, ◌*◌, ◌/◌, ◌%◌, ◌^◌, ◌≤◌, ◌<◌}
pub use Prim.Native.String.{String}
pub use mathlib.Core.Path.{◌≡◌, refl, sym, ap, ◌∙◌}
pub use mathlib.Core.Logic.{◌≢◌, ◌↔◌, ◌⊎◌, inl, inr}
pub use mathlib.Core.Bool.{Bool, true, false, not, ◌&&◌, ◌||◌, false≢true}
pub use mathlib.Core.Option.{Option, none, some}
pub use mathlib.Core.List.{List, [], ◌∷◌, ◌++◌, map, append-nil, append_assoc}
pub use native.Mathlib.Omega.{arith}
pub use text.Mathlib.Text.{◌==◌ as str_eq}
pub use text.Mathlib.TextEquality.{eq_iff}
pub use text.Mathlib.TextPositions.{eq_refl}
