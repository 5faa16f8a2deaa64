-- ===== src/Primitive/Integers.antt =====
-- The Int kernels of `invoke_scalar_kernel` in src/primitive.cpp: `none` is the overflow that the
-- guard reports before any arithmetic that would leave `std::int64_t`.
pub mod Overflow
use bennu.Prelude.{
  ℕ, ◌^◌, ◌-◌, Bool, true, false, not, ◌&&◌, ◌||◌, Option, none, some, if◌then◌else◌,
}
use bennu.Prelude.Int.{
  ℤ, pos, negsuc, ◌+ℤ◌, ◌-ℤ◌, ◌*ℤ◌, ◌/ℤ◌, ◌%ℤ◌, ltb_ℤ, eqb_ℤ, int64_min, int64_max,
}

abbrev pub is_positive_integer : ℤ → Bool
is_positive_integer a = ltb_ℤ (pos 0) a

abbrev pub is_negative_integer : ℤ → Bool
is_negative_integer a = ltb_ℤ a (pos 0)

-- `-a`
abbrev pub negated : ℤ → ℤ
negated a = pos 0 -ℤ a

unfoldable pub inc_integer : ℤ → Option ℤ
inc_integer a = if eqb_ℤ a int64_max then none else some (a +ℤ pos 1)

unfoldable pub add_integer : ℤ → ℤ → Option ℤ
add_integer left right =
    if (is_positive_integer right && ltb_ℤ (int64_max -ℤ right) left)
      || (is_negative_integer right && ltb_ℤ left (int64_min -ℤ right))
    then none
    else some (left +ℤ right)

unfoldable pub dec_integer : ℤ → Option ℤ
dec_integer a = if eqb_ℤ a int64_min then none else some (a -ℤ pos 1)

unfoldable pub neg_integer : ℤ → Option ℤ
neg_integer a = if eqb_ℤ a int64_min then none else some (negated a)

unfoldable pub abs_integer : ℤ → Option ℤ
abs_integer a =
    if eqb_ℤ a int64_min then none else some (if is_negative_integer a then negated a else a)

unfoldable pub sub_integer : ℤ → ℤ → Option ℤ
sub_integer left right =
    if (is_positive_integer right && ltb_ℤ left (int64_min +ℤ right))
      || (is_negative_integer right && ltb_ℤ (int64_max +ℤ right) left)
    then none
    else some (left -ℤ right)

-- The variable `overflow` of the product.
unfoldable pub mul_overflows : ℤ → ℤ → Bool
mul_overflows left right =
    if is_positive_integer left
    then (if is_positive_integer right
        then ltb_ℤ (int64_max /ℤ right) left
        else ltb_ℤ right (int64_min /ℤ left))
    else if is_negative_integer left
    then (if is_positive_integer right
        then ltb_ℤ left (int64_min /ℤ right)
        else is_negative_integer right && ltb_ℤ right (int64_max /ℤ left))
    else false

unfoldable pub mul_integer : ℤ → ℤ → Option ℤ
unfolding mul_overflows
mul_integer left right = if mul_overflows left right then none else some (left *ℤ right)

unfoldable pub odd_integer : ℤ → Bool
odd_integer a = not (eqb_ℤ (a %ℤ pos 2) (pos 0))

unfoldable pub even_integer : ℤ → Bool
even_integer a = eqb_ℤ (a %ℤ pos 2) (pos 0)
