-- ===== src/Base.antt =====
-- The names that the other modules share: the libraries', passed on, and those of the children.
mod Tests
mod Lists
pub mod Int
pub mod State
pub mod UnorderedMap
mod Text
unfoldable pub use Tests.*
pub use Lists.*
pub use Int.{
  ℤ, pos, negsuc, minus_one, is_neg, eq_ℤ, ltb_ℤ, int_max, IsInt, pos_ne, negsuc_ne, pos-ne-negsuc,
  to_i32-to_u32,
}
unfoldable pub use Int.{ℤ_discrete, incr, to_u32, to_i32}
pub use Text.{Bytes}
unfoldable pub use Text.{Bytes_discrete}
pub use Prim.Native.Nat.{ℕ, zero, suc, ◌+◌, ◌-◌, ◌*◌, ◌/◌, ◌%◌, ◌^◌, ◌≤◌, ◌<◌}
pub use mathlib.Core.Path.{◌≡◌, refl, sym, ap, ◌∙◌, fun_ext}
pub use mathlib.Core.Logic.{◌≢◌, ◌↔◌, ◌⊎◌, inl, inr, ite}
pub use mathlib.Core.Bool.{Bool, true, false, not, ◌&&◌, ◌||◌}
pub use mathlib.Core.Option.{Option, none, some}
pub use mathlib.Core.List.{List, [], ◌∷◌, ◌++◌, map}
pub use native.Mathlib.Omega.{arith}
unfoldable pub use native.Mathlib.Decide.{dec_lt, ℕ_discrete}
