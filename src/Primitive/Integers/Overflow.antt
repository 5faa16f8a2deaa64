-- ===== src/Primitive/Integers/Overflow.antt =====
-- The Int kernels report an overflow exactly when the exact result leaves `std::int64_t`.
use bennu.Prelude.{
  ℕ, zero, suc, ◌-◌, ◌*◌, ◌/◌, ◌<◌, ◌^◌, ◌≡◌, Option, none, some, arith, if◌then◌else◌, ◌||◌, ◌↔◌,
}
use native.Mathlib.Nat.{div-lt_iff_lt-mul}
use bennu.Prelude.Int.{ℤ, pos, negsuc, ◌+ℤ◌, ◌-ℤ◌, ◌*ℤ◌, ◌/ℤ◌, ltb_ℤ, int64_min, int64_max, IsInt64}
use bennu.Primitive.Integers.{
  inc_integer, add_integer, dec_integer, neg_integer, abs_integer, sub_integer, mul_integer,
}

-- An exact result, if `std::int64_t` holds it.
abbrev pub checked : ℤ → Option ℤ
checked a = if ltb_ℤ a int64_min || ltb_ℤ int64_max a then none else some a

-- The distance of an integer from zero.
abbrev pub absolute : ℤ → ℤ
absolute (pos n) = pos n
absolute (negsuc n) = pos (suc n)

-- Each unary kernel gives the exact result where `std::int64_t` holds it, and reports an overflow
-- otherwise, for every operand in the range.
pub unary-checked :
    (a : ℤ)
    → IsInt64 a
    → (inc_integer a ≡ checked (a +ℤ pos 1))
      × (dec_integer a ≡ checked (a -ℤ pos 1))
      × (neg_integer a ≡ checked (pos 0 -ℤ a))
      × (abs_integer a ≡ checked (absolute a))
unfolding inc_integer dec_integer neg_integer abs_integer ◌+ℤ◌ ◌-ℤ◌
unary-checked (pos n) h = ground arith
unary-checked (negsuc n) h = ground arith

pub add_integer-checked : (a b : ℤ) → IsInt64 a → IsInt64 b → add_integer a b ≡ checked (a +ℤ b)
unfolding add_integer ◌+ℤ◌ ◌-ℤ◌
add_integer-checked (pos n) (pos m) ha hb = ground arith
add_integer-checked _ _ ha hb = ground arith

pub sub_integer-checked : (a b : ℤ) → IsInt64 a → IsInt64 b → sub_integer a b ≡ checked (a -ℤ b)
unfolding sub_integer ◌+ℤ◌ ◌-ℤ◌
sub_integer-checked (pos n) (pos m) ha hb = ground arith
sub_integer-checked _ _ ha hb = ground arith

-- A test against a quotient is a test of a product.
quotient-lt : (a k x : ℕ) → (a / suc k < x) ↔ (a < x * suc k)
quotient-lt a k x = div-lt_iff_lt-mul (omega arith)

pub mul_integer-checked : (a b : ℤ) → IsInt64 a → IsInt64 b → mul_integer a b ≡ checked (a *ℤ b)
unfolding mul_integer ◌*ℤ◌ ◌/ℤ◌
mul_integer-checked (pos zero) (pos m) ha hb = ground arith
mul_integer-checked (pos (suc n)) (pos zero) ha hb = ground arith
mul_integer-checked (pos (suc n)) (pos (suc m)) ha hb =
    ground (arith, quotient-lt (2 ^ 63 - 1) m (suc n))
mul_integer-checked (pos zero) (negsuc m) ha hb = ground arith
mul_integer-checked (pos (suc n)) (negsuc m) ha hb = ground (arith, quotient-lt (2 ^ 63) n (suc m))
mul_integer-checked (negsuc n) (pos zero) ha hb = ground arith
mul_integer-checked (negsuc n) (pos (suc m)) ha hb = ground (arith, quotient-lt (2 ^ 63) m (suc n))
mul_integer-checked (negsuc n) (negsuc m) ha hb = ground (arith, quotient-lt (2 ^ 63 - 1) n (suc m))
