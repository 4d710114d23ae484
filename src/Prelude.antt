-- ===== src/Prelude.antt =====
-- The names that the other modules share: the libraries', passed on, and those of the children.
mod Tests
mod Lists
mod Texts
mod Suffixes
pub mod Int
pub mod Numbers
pub use Tests.*
pub use Lists.*
unfoldable pub use Suffixes.{cut_suffix, has_suffix, trim_suffix, fold_rune, equal_fold}
pub use Suffixes.{is_some, or_else, cut_suffix_sound, cut_suffix-append, has_suffix-append}
unfoldable pub use Texts.{starts_with, index, contains_rune, text_eq, join, lookup, contains}
pub use Texts.{
  Text, codes, str_eq_self, str_eq→eq, str_eq_other, str_eq_differs, text_eq_refl, text_eq→eq,
  text_eq_iff, starts_with-append, starts_with_extend, starts_with-length, starts_with-split,
}
pub use Prim.Native.Nat.{ℕ, zero, suc, ◌+◌, ◌-◌, ◌*◌, ◌/◌, ◌%◌, ◌^◌, ◌≤◌, ◌<◌, min, max}
pub use Prim.Native.String.{String}
pub use mathlib.Core.Path.{◌≡◌, refl, sym, ap, ◌∙◌, subst}
pub use mathlib.Core.Logic.{◌≢◌, ◌↔◌, ◌⊎◌, inl, inr}
pub use mathlib.Core.Bool.{Bool, true, false, not, ◌&&◌, ◌||◌}
pub use mathlib.Core.Option.{Option, none, some}
pub use mathlib.Core.List.{List, [], ◌∷◌, ◌++◌, map, append-nil, append_assoc}
pub use native.Mathlib.Omega.{arith}
