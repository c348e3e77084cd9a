-- ===== src/Base.antt =====
-- Names that every module shares: those of the libraries, passed on, and those of the children
-- (tests, lists, texts, integers, results).
pub mod Tests
pub mod Lists
pub mod Select
pub mod Text
pub mod Decimal
pub mod Int
pub use Tests.*
pub use Lists.*
unfoldable pub use Select.{first_where, earliest}
pub use Select.{
  All-mem, first_where-mem, first_where_misses, earliest-mem, earliest_misses, earliest_least,
}
pub use Prim.Native.Nat.{ℕ, zero, suc, ◌+◌, ◌-◌, ◌*◌, ◌/◌, ◌%◌, ◌^◌, ◌≤◌, ◌<◌, min, max}
pub use Prim.Native.String.{String}
pub use mathlib.Core.Path.{◌≡◌, refl, sym, ap, ◌∙◌, subst, subst₂}
pub use mathlib.Core.Logic.{◌≢◌, ◌↔◌, ◌⊎◌, inl, inr}
pub use mathlib.Core.Bool.{Bool, true, false, not, ◌&&◌, ◌||◌}
pub use mathlib.Core.Option.{Option, none, some}
pub use mathlib.Core.List.{List, [], ◌∷◌, ◌++◌, map, append_assoc, append-nil, Memᴰ}
pub use native.Mathlib.Omega.{arith}
unfoldable pub use native.Mathlib.Decide.{dec_lt, dec_le, ℕ_discrete}
