-- ===== src/Base.antt =====
-- The names that the other modules share: the libraries', passed on, and those of the children.
-- `Text` models what the code uses of Go's `strings` package, `Maps` Go's maps.
mod Tests
mod Lists
mod Maps
mod Text
pub mod Int
pub use Tests.*
pub use Lists.*
unfoldable pub use Maps.*
pub use Text.{
  Str, codes, to_lower, take-append, drop-append, drop-append-append, has_prefix_self,
  has_prefix-append, index-cut, index-append,
}
unfoldable pub use Text.{has_prefix, trim_prefix, has_suffix, index, contains, split_n, split}
pub use Prim.Native.Nat.{ℕ, zero, suc, ◌+◌, ◌-◌, ◌*◌, ◌/◌, ◌%◌, ◌^◌, ◌≤◌, ◌<◌}
pub use mathlib.Core.Path.{◌≡◌, refl, sym, ap, ◌∙◌}
pub use mathlib.Core.Logic.{◌≢◌, ◌↔◌, ◌⊎◌, inl, inr}
pub use mathlib.Core.Bool.{Bool, true, false, not, ◌&&◌, ◌||◌}
pub use mathlib.Core.Option.{Option, none, some}
pub use mathlib.Core.List.{List, [], ◌∷◌, ◌++◌, map, append_assoc, append-nil}
pub use native.Mathlib.Omega.{arith}
