-- ===== src/Prelude.antt =====
-- The names that the other modules share: the libraries', passed on, and those of the children.
mod Tests
mod Lists
mod Outcome
pub mod Texts
pub mod Maps
pub use Tests.*
pub use Lists.*
pub use Outcome.*
unfoldable pub use Texts.{
  Text, codes, text_eq, text_eq_inst, contains, count, has_prefix, has_suffix, trim_suffix,
  trim_prefix, split, join,
}
pub use Texts.{text_eq_iff, Lacks}
unfoldable pub use Maps.{Map, lookup, insert, has_key}
pub use Maps.{
  lookup-insert, lookup-insert_inv, All-insert, Distinct, has_key-insert, Distinct-insert,
  Distinct-lookup, All-lookup,
}
pub use Prim.Native.Nat.{ℕ, zero, suc, ◌+◌, ◌-◌, ◌*◌, ◌/◌, ◌%◌, ◌^◌, ◌≤◌, ◌<◌}
pub use mathlib.Core.Path.{◌≡◌, refl, sym, ap, ◌∙◌}
pub use mathlib.Core.Logic.{◌≢◌, ◌↔◌, ◌⊎◌, inl, inr}
pub use mathlib.Core.Bool.{Bool, true, false, not, ◌&&◌, ◌||◌}
pub use mathlib.Core.Option.{Option, none, some}
pub use mathlib.Core.List.{List, [], ◌∷◌, ◌++◌, map, append-nil, append_assoc}
pub use native.Mathlib.Omega.{arith}
