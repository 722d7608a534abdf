-- ===== src/Common.antt =====
-- Names that the other modules share: the libraries' names passed on, and the children's.
mod Tests
mod Lists
mod Equality
mod Sets
mod Texts
mod Substrings
mod Sorting
mod Integers
mod Permutations
pub use Tests.*
pub use Lists.*
pub use Equality.*
pub use Sets.*
pub use Integers.*
pub use Permutations.*
unfoldable pub use Texts.{◌&◌, join, slice_to, text_lt}
unfoldable pub use Substrings.{
  between, is_space, text_length, starts_with, ends_with, includes, trim, pad_start,
}
pub use Texts.{text_lt_trans, text_lt_asym, text_lt_total}
pub use Prim.Native.Nat.{ℕ, zero, suc, ◌+◌, ◌-◌, ◌*◌, ◌≤◌, ◌<◌}
pub use Prim.Native.String.{String}
pub use mathlib.Core.Path.{◌≡◌, refl, sym, ap, ◌∙◌}
pub use mathlib.Core.Logic.{◌≢◌, ◌↔◌, ◌⊎◌, inl, inr}
pub use mathlib.Core.Bool.{Bool, true, false, not, ◌&&◌, ◌||◌}
pub use mathlib.Core.Option.{Option, none, some}
pub use mathlib.Core.List.{List, [], ◌∷◌, ◌++◌, map}
pub use native.Mathlib.Omega.{arith}
pub use text.Mathlib.TextEquality.{eq_iff}
unfoldable pub use Sorting.{insert_by, sort_by}
pub use Sorting.{
  IsSortedBy, IsOrder, length-sort_by, sort_by-perm, sort_by-All, insert_by-IsSortedBy,
  sort_by-IsSortedBy, sort_by-of_IsSortedBy,
}
