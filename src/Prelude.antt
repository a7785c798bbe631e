-- ===== src/Prelude.antt =====
-- The names that the other modules share: the libraries', passed on, and those of the children.
mod Tests
mod Lists
mod Results
mod Texts
mod Int
mod Distinct
mod Parts
mod Trims
pub use Tests.*
pub use Lists.*
pub use Results.*
pub use Int.*
pub use Distinct.*
pub use Trims.{trim_again}
pub use Parts.{to_first, without_empty, is_digit, unsigned, positive, negative}
unfoldable pub use Parts.{split, fields_func, digits, atoi}
pub use Texts.{
  Text, codes, is_empty, cons_before, text_eq_refl, text_eq_iff, cut_prefix-append, cut_prefix-some,
}
unfoldable pub use Texts.{
  text_eq, is_space, trim_left, trim_space, lower_rune, to_lower, contains_rune, cut_prefix,
  has_prefix, contains, cut, count_rune, byte_len,
}
pub use Prim.Native.Nat.{ℕ, zero, suc, ◌+◌, ◌-◌, ◌*◌, ◌/◌, ◌%◌, ◌^◌, ◌≤◌, ◌<◌}
pub use mathlib.Core.Path.{◌≡◌, refl, sym, ap, ◌∙◌}
pub use mathlib.Core.Logic.{◌≢◌, ◌↔◌, ◌⊎◌, inl, inr}
pub use mathlib.Core.Bool.{Bool, true, false, not, ◌&&◌, ◌||◌}
pub use mathlib.Core.Option.{Option, none, some}
pub use mathlib.Core.List.{List, [], ◌∷◌, ◌++◌, map, reverse}
pub use native.Mathlib.Omega.{arith}
