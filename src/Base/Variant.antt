-- ===== src/Base/Variant.antt =====
-- `QVariant`, for the kinds of value that the code puts into one, and Qt's conversions out of it.
use Prim.Native.Nat.{ℕ}
use Prim.Native.String.{String}
use mathlib.Core.Bool.{Bool}
use ioproxy.Base.Int.{ℤ}

pub data Variant : Type 0 where
  invalid : Variant
  text : String → Variant
  int : ℤ → Variant
  bool : Bool → Variant

-- Qt's conversions, which the code calls and does not define.
pub record Conversions : Type 0 where
  pub to_string : Variant → String
  pub to_uint : Variant → ℕ
  pub to_bool : Variant → Bool
  pub to_long_long : Variant → ℤ
  pub to_ulong_long : Variant → ℕ
