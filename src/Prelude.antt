-- ===== src/Prelude.antt =====
-- The names that the other modules share: the libraries' names passed on, Boolean tests on the
-- native numbers, lists measured by them, texts as lists of bytes, and signed results.
mod Tests
mod Lists
mod Signed
mod Texts
mod Decimal
pub use Tests.*
pub use Lists.*
pub use Signed.*
pub use Texts.*
unfoldable pub use Decimal.{to_decimal, to_decimal_ℤ, atoi, signed_value, digits_value}
pub use Decimal.{is_space, atoi-to_decimal, to_decimal-nonempty, to_decimal_ℤ-pos}
pub use Prim.Native.Nat.{ℕ, zero, suc, ◌+◌, ◌-◌, ◌*◌, ◌/◌, ◌%◌, ◌^◌, ◌≤◌, ◌<◌, min}
pub use Prim.Native.String.{String}
pub use mathlib.Core.Path.{◌≡◌, refl, sym, ap, ◌∙◌, subst, fun_ext}
pub use mathlib.Core.Logic.{◌≢◌, ◌↔◌, ◌⊎◌, inl, inr}
pub use mathlib.Core.Bool.{Bool, true, false, not, ◌&&◌, ◌||◌}
pub use mathlib.Core.Option.{Option, none, some}
pub use mathlib.Core.List.{List, [], ◌∷◌, ◌++◌, map, append-nil, append_assoc}
pub use native.Mathlib.Omega.{arith}
