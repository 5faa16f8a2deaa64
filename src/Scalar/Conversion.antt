-- ===== src/Scalar/Conversion.antt =====
-- `int_to_binary64` and `convert_scalar` of src/primitive.cpp.
use Prim.Native.Nat.{bit_and, bit_or}
use bennu.Prelude.{
  ℕ, zero, suc, ◌+◌, ◌-◌, ◌*◌, ◌/◌, ◌%◌, ◌^◌, Bool, false, not, ◌&&◌, ◌||◌, ◌==◌, nat_eq, ltb, leb,
  if◌then◌else◌, ◌≡◌, refl,
}
use bennu.Prelude.Int
use bennu.Prelude.Int.{ℤ, pos, pos_part, neg_part, eqb_ℤ, ltb_ℤ}
use bennu.Scalar.Types.{
  ScalarType, integer, double_precision, ScalarValue, scalar_type_eq, empty_scalar_value,
}
use bennu.Scalar.Binary64.{binary64_fraction_mask, valid_scalar}

-- `std::bit_width` of a word of at most `bits` bits.
bit_width : ℕ → ℕ → ℕ
bit_width zero n = 0
bit_width (suc bits) n = if n == 0 then 0 else 1 + bit_width bits (n / 2)

-- A significand of 53 bits and the place of the leading bit of the number.
pub record Rounded : Type 0 where
  pub significand : ℕ
  pub most_significant : ℕ

-- Shifts are on 64 bits.
shift_left : ℕ → ℕ → ℕ
shift_left n k = n * 2 ^ k % 2 ^ 64

shift_right : ℕ → ℕ → ℕ
shift_right n k = n / 2 ^ k

-- The step after `++significand`.
carry : ℕ → ℕ → Rounded
carry significand most_significant =
    if significand == 2 ^ 53
    then record { significand = shift_right significand 1; most_significant = most_significant + 1 }
    else record { significand = significand; most_significant = most_significant }

pub round_magnitude : ℕ → ℕ → Rounded
unfolding shift_left shift_right carry
round_magnitude magnitude most_significant =
    if leb most_significant 52
    then record {
      significand = shift_left magnitude (52 - most_significant);
      most_significant = most_significant;
    }
    else let shift = most_significant - 52 in
      let significand = shift_right magnitude shift in
      let remainder = bit_and magnitude (shift_left 1 shift - 1) in
      let halfway = shift_left 1 (shift - 1) in
      if ltb halfway remainder || (remainder == halfway && not (bit_and significand 1 == 0))
      then carry (significand + 1) most_significant
      else record { significand = significand; most_significant = most_significant }

-- `sign | exponent | fraction`.
pub assemble : Bool → Rounded → ℕ
unfolding shift_left
assemble negative rounded =
    bit_or
      (bit_or (if negative then 2 ^ 63 else 0) (shift_left (rounded.most_significant + 1023) 52))
      (bit_and rounded.significand binary64_fraction_mask)

unfoldable pub int_to_binary64 : ℤ → ℕ
unfolding bit_width round_magnitude assemble
int_to_binary64 value =
    if eqb_ℤ value (pos 0)
    then 0
    else let negative = ltb_ℤ value (pos 0) in
      let magnitude = if negative then neg_part value else pos_part value in
      assemble negative (round_magnitude magnitude (bit_width 64 magnitude - 1))

pub data ScalarConversionStatus : Type 0 where
  success invalid_scalar unsupported_conversion : ScalarConversionStatus

pub record ScalarConversionResult : Type 0 where
  pub status : ScalarConversionStatus
  pub value : ScalarValue

unfoldable pub convert_scalar : ScalarValue → ScalarType → ScalarConversionResult
convert_scalar value parameter_type =
    if not (valid_scalar value)
    then record { status = invalid_scalar; value = empty_scalar_value }
    else if value.kind == parameter_type
    then record { status = success; value = value }
    else if value.kind == integer && parameter_type == double_precision
    then record {
      status = success;
      value = record {
        kind = double_precision;
        boolean_field = false;
        integer_field = pos 0;
        double_bits = int_to_binary64 value.integer_field;
      };
    }
    else record { status = unsupported_conversion; value = empty_scalar_value }

-- 2 ^ 53 + 1 is a tie and goes to the even neighbour; 2 ^ 63 - 1 carries into the next binade.
conversions :
    (int_to_binary64 (pos 1) ≡ 0x3ff0000000000000)
    × (int_to_binary64 (Int.negsuc 1) ≡ 0xc000000000000000)
    × (int_to_binary64 (pos (2 ^ 53 + 1)) ≡ 0x4340000000000000)
    × (int_to_binary64 (pos (2 ^ 63 - 1)) ≡ 0x43e0000000000000)
    × (int_to_binary64 (Int.negsuc (2 ^ 63 - 1)) ≡ 0xc3e0000000000000)
unfolding int_to_binary64
conversions = (refl, refl, refl, refl, refl)
