-- ===== src/Scalar/Binary64.antt =====
-- The code on the bit patterns of doubles: `normalize_double` and `is_canonical_double` of
-- src/value.cpp, and `valid_scalar`, the binary64 tests and `strict_binary64_arithmetic` of
-- src/primitive.cpp. The sums and products of the floating-point unit are parameters.
use Prim.Native.Nat.{bit_and, bit_or, bit_xor}
use bennu.Prelude.{
  ◌≡◌, arith, refl, ℕ, ◌-◌, ◌^◌, Bool, true, false, not, ◌&&◌, ◌||◌, ◌==◌, nat_eq, ltb,
  if◌then◌else◌,
}
use bennu.Prelude.Int.{eqb_ℤ, pos}
use bennu.Scalar.Types.{ScalarType, boolean, integer, double_precision, ScalarValue}

abbrev pub binary64_exponent_mask : ℕ
binary64_exponent_mask = 0x7ff0000000000000

abbrev pub binary64_fraction_mask : ℕ
binary64_fraction_mask = 0x000fffffffffffff

abbrev pub canonical_nan_bits : ℕ
canonical_nan_bits = 0x7ff8000000000000

abbrev pub sign_bit : ℕ
sign_bit = 0x8000000000000000

-- `~word` on 64 bits.
abbrev pub complement : ℕ → ℕ
complement word = 2 ^ 64 - 1 - word

unfoldable pub binary64_is_nan : ℕ → Bool
binary64_is_nan bits =
    bit_and bits binary64_exponent_mask == binary64_exponent_mask
    && not (bit_and bits binary64_fraction_mask == 0)

unfoldable pub binary64_is_infinity : ℕ → Bool
binary64_is_infinity bits = bit_and bits (complement sign_bit) == binary64_exponent_mask

unfoldable pub binary64_is_zero : ℕ → Bool
binary64_is_zero bits = bit_and bits (complement sign_bit) == 0

unfoldable pub binary64_order_key : ℕ → ℕ
binary64_order_key bits =
    if not (bit_and bits sign_bit == 0) then complement bits else bit_or bits sign_bit

unfoldable pub binary64_equal : ℕ → ℕ → Bool
binary64_equal left right =
    if binary64_is_nan left || binary64_is_nan right
    then false
    else if binary64_is_zero left && binary64_is_zero right
    then true
    else left == right

unfoldable pub binary64_less_than : ℕ → ℕ → Bool
binary64_less_than left right =
    if binary64_is_nan left
      || (binary64_is_nan right || (binary64_is_zero left && binary64_is_zero right))
    then false
    else ltb (binary64_order_key left) (binary64_order_key right)

unfoldable pub binary64_is_positive : ℕ → Bool
binary64_is_positive bits =
    not (binary64_is_nan bits) && (not (binary64_is_zero bits) && bit_and bits sign_bit == 0)

unfoldable pub binary64_is_negative : ℕ → Bool
binary64_is_negative bits =
    not (binary64_is_nan bits) && (not (binary64_is_zero bits) && not (bit_and bits sign_bit == 0))

unfoldable pub normalize_double : ℕ → ℕ
normalize_double bits =
    if bit_and bits binary64_exponent_mask == binary64_exponent_mask
      && not (bit_and bits binary64_fraction_mask == 0)
    then canonical_nan_bits
    else bits

unfoldable pub is_canonical_double : ℕ → Bool
is_canonical_double bits =
    if not (bit_and bits binary64_exponent_mask == binary64_exponent_mask)
      || bit_and bits binary64_fraction_mask == 0
    then true
    else bits == canonical_nan_bits

-- The switch of `valid_scalar` on the tag.
valid_as : ScalarType → ScalarValue → Bool
valid_as boolean value = eqb_ℤ value.integer_field (pos 0) && value.double_bits == 0
valid_as integer value = not value.boolean_field && value.double_bits == 0
valid_as double_precision value =
    if value.boolean_field || not (eqb_ℤ value.integer_field (pos 0))
    then false
    else is_canonical_double value.double_bits

unfoldable pub valid_scalar : ScalarValue → Bool
unfolding valid_as
valid_scalar value = valid_as value.kind value

valid_as-canonical :
    (t : ScalarType) (s : ScalarValue)
    → valid_as t s ≡ true
    → is_canonical_double s.double_bits ≡ true
unfolding valid_as is_canonical_double
valid_as-canonical boolean s e =
    let none_set : s.double_bits ≡ 0 = ground (arith, e) in rw none_set refl
valid_as-canonical integer s e =
    let none_set : s.double_bits ≡ 0 = ground (arith, e) in rw none_set refl
valid_as-canonical double_precision s e = ground (arith, e)

pub valid_scalar-canonical :
    (s : ScalarValue) → valid_scalar s ≡ true → is_canonical_double s.double_bits ≡ true
unfolding valid_scalar
valid_scalar-canonical s e = valid_as-canonical s.kind s e

pub data StrictBinary64Operation : Type 0 where
  add subtract multiply : StrictBinary64Operation

-- The floating-point unit under the strict control word: round to nearest, no flushing to zero.
pub record FloatingPointUnit : Type 0 where
  pub run : StrictBinary64Operation → ℕ → ℕ → ℕ

invalid_infinity_arithmetic : StrictBinary64Operation → Bool → Bool
invalid_infinity_arithmetic add signs_differ = signs_differ
invalid_infinity_arithmetic subtract signs_differ = not signs_differ
invalid_infinity_arithmetic multiply signs_differ = false

invalid_infinity_product : StrictBinary64Operation → ℕ → ℕ → Bool
invalid_infinity_product multiply left right =
    (binary64_is_infinity left && binary64_is_zero right)
    || (binary64_is_zero left && binary64_is_infinity right)
invalid_infinity_product _ left right = false

unfoldable pub strict_binary64_arithmetic : FloatingPointUnit → ℕ → ℕ → StrictBinary64Operation → ℕ
unfolding invalid_infinity_arithmetic invalid_infinity_product
strict_binary64_arithmetic unit left right operation =
    let signs_differ = not (bit_and (bit_xor left right) sign_bit == 0) in
    if binary64_is_nan left || binary64_is_nan right
    then canonical_nan_bits
    else if (binary64_is_infinity left
          && binary64_is_infinity right
          && invalid_infinity_arithmetic operation signs_differ)
        || invalid_infinity_product operation left right
    then canonical_nan_bits
    else normalize_double (unit.run operation left right)
