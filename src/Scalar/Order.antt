-- ===== src/Scalar/Order.antt =====
-- The comparisons of `binary64_equal`, `binary64_less_than` and the sign tests, against the order
-- of the numbers that the patterns stand for: sign and magnitude, with both zeros at 0.
use bennu.Prelude.{ℕ, ◌≤◌, ◌<◌, ◌^◌, ◌≡◌, ◌↔◌, true, arith, ltb, if◌then◌else◌}
use bennu.Prelude.Int.{ℤ, pos, neg_ℕ, ◌<ℤ◌}
use bennu.Scalar.Binary64.{
  binary64_equal, binary64_less_than, binary64_is_positive, binary64_is_negative,
}
use bennu.Scalar.Fields.{
  magnitude, infinity_bits, bit_and-sign, binary64_is_nan_iff, binary64_is_zero_iff,
  binary64_order_key_lem,
}

-- The place of a pattern in the order of the doubles. Patterns of one sign are ordered as numbers
-- are, since the exponent stands above the fraction.
abbrev pub rank : ℕ → ℤ
rank bits = if ltb bits (2 ^ 63) then pos (magnitude bits) else neg_ℕ (magnitude bits)

abbrev pub IsNumber : ℕ → Type 0
IsNumber bits = (bits < 2 ^ 64) × (magnitude bits ≤ infinity_bits)

module _ (l r : ℕ) (hl : l < 2 ^ 64) (hr : r < 2 ^ 64) where
  -- `binary64_less_than` holds exactly of two numbers whose first ranks below the second; a NaN on
  -- either side makes it false, and the two zeros rank alike.
  pub binary64_less_than_iff :
      (binary64_less_than l r ≡ true) ↔ (IsNumber l × IsNumber r × (rank l <ℤ rank r))
  unfolding binary64_less_than
  binary64_less_than_iff = ground (
    arith,
    binary64_is_nan_iff l,
    binary64_is_nan_iff r,
    binary64_is_zero_iff l,
    binary64_is_zero_iff r,
    binary64_order_key_lem l hl,
    binary64_order_key_lem r hr,
  )

  -- `binary64_equal` holds exactly of two numbers of one rank: equal patterns, or two zeros.
  pub binary64_equal_iff :
      (binary64_equal l r ≡ true) ↔ (IsNumber l × IsNumber r × (rank l ≡ rank r))
  unfolding binary64_equal
  binary64_equal_iff = ground (
    arith,
    binary64_is_nan_iff l,
    binary64_is_nan_iff r,
    binary64_is_zero_iff l,
    binary64_is_zero_iff r,
  )

-- The sign tests hold exactly of the numbers above and below zero in that order.
pub binary64_sign_iff :
    (bits : ℕ)
    → bits < 2 ^ 64
    → ((binary64_is_positive bits ≡ true) ↔ (IsNumber bits × (pos 0 <ℤ rank bits)))
      × ((binary64_is_negative bits ≡ true) ↔ (IsNumber bits × (rank bits <ℤ pos 0)))
unfolding binary64_is_positive binary64_is_negative
binary64_sign_iff bits h =
    ground (arith, binary64_is_nan_iff bits, binary64_is_zero_iff bits, bit_and-sign bits)
