-- ===== src/Base.antt =====
-- The names that the other modules share: the libraries', passed on, and those of the children.
mod Tests
mod Tables
mod Keys
mod Order
mod Sorting
mod Slices
mod Failing
mod Text
pub use Tests.*
unfoldable pub use Tables.{update_where, count_where, select_where, find, any, all}
pub use Tables.*
pub use Keys.*
unfoldable pub use Order.{first_by}
pub use Order.*
unfoldable pub use Sorting.{insert, sort_by}
pub use Sorting.*
pub use Slices.*
pub use Failing.*
unfoldable pub use Text.{has_prefix, contains, cut_at, split_at}
pub use Text.*
pub use Prim.Native.Nat.{ℕ, zero, suc, ◌+◌, ◌-◌, ◌*◌, ◌/◌, ◌%◌, ◌^◌, ◌≤◌, ◌<◌, min}
pub use Prim.Native.String.{String}
pub use mathlib.Core.Path.{◌≡◌, refl, sym, ap, ◌∙◌, subst}
pub use mathlib.Core.Logic.{◌≢◌, ◌↔◌, ◌⊎◌, inl, inr}
pub use mathlib.Core.Bool.{Bool, true, false, not, ◌&&◌, ◌||◌}
pub use mathlib.Core.Option.{Option, none, some}
pub use mathlib.Core.List.{List, [], ◌∷◌, ◌++◌, map, append-nil, append_assoc}
pub use native.Mathlib.Omega.{arith}
