-- ===== src/Common.antt =====
-- The names that the other modules share: the libraries', passed on, and those of the children.
-- Python values: `str` is the native text, `None` is `none`, a dict is an association list with
-- one entry for each key, a set is a list of which only membership and `sorted` are observed.
mod Tests
mod Text
mod Lists
mod TextLaws
mod Dicts
mod Digits
mod Patterns
pub use TextLaws.*
pub use Tests.*
unfoldable pub use Text.*
unfoldable pub use Lists.*
unfoldable pub use Dicts.*
unfoldable pub use Digits.*
unfoldable pub use Patterns.*
pub use Prim.Native.Nat.{ℕ, zero, suc, ◌+◌, ◌-◌, ◌*◌, ◌/◌, ◌%◌, ◌≤◌, ◌<◌, min, max}
pub use Prim.Native.String.{String}
pub use mathlib.Core.Path.{◌≡◌, refl, sym, ap, ◌∙◌, subst}
pub use mathlib.Core.Logic.{◌≢◌, ◌↔◌, ◌⊎◌, inl, inr}
pub use mathlib.Core.Bool.{Bool, true, false, not, ◌&&◌, ◌||◌}
pub use mathlib.Core.Option.{Option, none, some}
pub use mathlib.Core.List.{List, [], ◌∷◌, ◌++◌, map}
pub use native.Mathlib.Omega.{arith}
pub use text.Mathlib.TextEquality.{eq_iff}
pub use text.Mathlib.TextPositions.{eq_refl}
