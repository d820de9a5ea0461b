-- ===== src/Common.antt =====
-- The names that every module shares: those of the libraries, and those of the children for tests,
-- lists and texts.
mod Tests
mod Lists
pub mod Int
mod Codes
pub use Tests.*
pub use Lists.*
unfoldable pub use Codes.{codes, digits_of, show_nat, text_eq, text_lt}
pub use Codes.{Text, text_eq_iff, text_eq_refl, text_eq-ne}
unfoldable pub use Codes.{utf8}
pub use Prim.Native.Nat.{ℕ, zero, suc, ◌+◌, ◌-◌, ◌*◌, ◌/◌, ◌%◌, ◌^◌, ◌≤◌, ◌<◌, min, max}
pub use mathlib.Core.Path.{◌≡◌, refl, sym, ap, ◌∙◌, subst}
pub use mathlib.Core.Logic.{◌≢◌, ◌↔◌, ◌⊎◌, inl, inr}
pub use mathlib.Core.Bool.{Bool, true, false, not, ◌&&◌, ◌||◌}
pub use mathlib.Core.Option.{Option, none, some}
pub use mathlib.Core.List.{List, [], ◌∷◌, ◌++◌, map, append_assoc, append-nil}
pub use native.Mathlib.Omega.{arith}
