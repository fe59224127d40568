-- ===== src/Base.antt =====
-- The names that the other modules share: the libraries', passed on, and those of the children:
-- Boolean tests, lists over the native numbers, C strings with snprintf, and signed differences.
pub mod Tests
pub mod Lists
pub mod Bytes
pub mod Int
pub use Tests.{
  ltb, leb, ◌==◌, if◌then◌else◌, Bool-cases, Option-cases, List-cases, Sum-cases, is_some, ltb→lt,
  lt→ltb, ==_iff, ==_refl,
}
pub use Lists.{
  length, take, drop, get_elem?, count, All, swap_remove, length-swap_remove, length-swap_remove-le,
  count-swap_remove, take-append, count_of_empty, count_of_get_elem?, length-append, count-append,
  length-take, take_of_le, total, total-append, total-swap_remove,
}
pub use Prim.Native.Nat.{ℕ, zero, suc, ◌+◌, ◌-◌, ◌*◌, ◌/◌, ◌%◌, ◌^◌, ◌≤◌, ◌<◌}
pub use mathlib.Core.Path.{◌≡◌, refl, sym, ap, ◌∙◌}
pub use mathlib.Core.Logic.{◌≢◌, ◌↔◌, ◌⊎◌, inl, inr}
pub use mathlib.Core.Bool.{Bool, true, false, not, ◌&&◌, ◌||◌}
pub use mathlib.Core.Option.{Option, none, some}
pub use mathlib.Core.List.{List, [], ◌∷◌, ◌++◌, map, append_assoc, append-nil}
pub use native.Mathlib.Omega.{arith}
