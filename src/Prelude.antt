-- ===== src/Prelude.antt =====
-- The names that the other modules share: the libraries', passed on, and those of the children.
mod Tests
mod Lists
pub mod Int
pub mod Text
pub mod Sort
pub mod Shuffle
pub mod Batch
pub mod Assoc
pub use Tests.*
pub use Lists.*
pub use Prim.Native.Nat.{ℕ, zero, suc, ◌+◌, ◌-◌, ◌*◌, ◌/◌, ◌%◌, ◌≤◌, ◌<◌, max}
pub use Prim.Native.String.{String}
pub use mathlib.Core.Path.{◌≡◌, refl, sym, ap, subst, ◌∙◌}
pub use mathlib.Core.Logic.{◌≢◌, ◌↔◌, ◌⊎◌, inl, inr}
pub use mathlib.Core.Bool.{Bool, true, false, not, ◌&&◌, ◌||◌}
pub use mathlib.Core.Option.{Option, none, some}
pub use mathlib.Core.List.{List, [], ◌∷◌, ◌++◌, map}
pub use native.Mathlib.Omega.{arith}
unfoldable pub use Text.{is_blank, leb_text}
unfoldable pub use Sort.{sort}
pub use Sort.{
  IsSorted, IsOrder, sort-IsSorted, In-sort, length-sort, keep-sort, keep-IsSorted, sort_sorted,
}
unfoldable pub use Assoc.{lookup, insert, erase}
pub use Assoc.{
  Dict, Items, Items-insert, Items-lookup, values, lookup-insert, lookup-erase, lookup-insert_same,
  lookup-erase_same,
}
