-- ===== src/Primitive/Kernel/Exact.antt =====
-- The Int arithmetic of `invoke_scalar_kernel` against exact integers.
use bennu.Prelude.{◌≡◌, true, List, [], ◌∷◌, Option, none, some, arith, All, if◌then◌else◌}
use bennu.Prelude.Int.{ℤ, pos, ◌+ℤ◌, ◌-ℤ◌, ◌*ℤ◌, IsInt64, is_int64, negsuc}
use bennu.Scalar.Types.{ScalarValue}
use bennu.Scalar.Binary64.{FloatingPointUnit}
use bennu.Primitive.Types.{PrimitiveImplementation, PrimitiveSignature, PrimitiveDescriptor}
use bennu.Primitive.Types
use bennu.Primitive.Integers.Overflow.{
  checked, absolute, unary-checked, add_integer-checked, sub_integer-checked, mul_integer-checked,
}
use bennu.Primitive.Kernel.{
  int_outcome, kernel, may_invoke, invoke_scalar_kernel, successful_kernel, overflow_result,
  int_scalar, kernel_result,
}
use bennu.Error.{HostAllocator, SourceLocation}

-- The exact integer that an Int arithmetic primitive stands for, with no bound on its size.
abbrev pub exact : PrimitiveImplementation → List ScalarValue → Option ℤ
exact Types.inc_integer (a ∷ []) = some (a.integer_field +ℤ pos 1)
exact Types.dec_integer (a ∷ []) = some (a.integer_field -ℤ pos 1)
exact Types.neg_integer (a ∷ []) = some (pos 0 -ℤ a.integer_field)
exact Types.abs_integer (a ∷ []) = some (absolute a.integer_field)
exact Types.add_integer (a ∷ b ∷ []) = some (a.integer_field +ℤ b.integer_field)
exact Types.sub_integer (a ∷ b ∷ []) = some (a.integer_field -ℤ b.integer_field)
exact Types.mul_integer (a ∷ b ∷ []) = some (a.integer_field *ℤ b.integer_field)
exact _ _ = none

abbrev pub AllInt64 : List ScalarValue → Type 0
AllInt64 = All λ o. IsInt64 o.integer_field

kernel-exact :
    (unit : FloatingPointUnit) (i : PrimitiveImplementation) (os : List ScalarValue) (z : ℤ)
    → AllInt64 os
    → exact i os ≡ some z
    → kernel unit i os ≡ int_outcome (checked z)
unfolding kernel
kernel-exact unit Types.no_implementation os z h e = ground arith
kernel-exact unit i [] z h e = ground arith
kernel-exact unit i (a ∷ []) z (h, t) e = ground (arith, unary-checked a.integer_field h)
kernel-exact unit i (a ∷ b ∷ []) z (h, (k, t)) e = ground (
  arith,
  add_integer-checked a.integer_field b.integer_field h k,
  sub_integer-checked a.integer_field b.integer_field h k,
  mul_integer-checked a.integer_field b.integer_field h k,
)
kernel-exact unit i (a ∷ b ∷ c ∷ os) z h e = ground arith

checked-is_int64 : (z : ℤ) → checked z ≡ (if is_int64 z then some z else none)
unfolding is_int64
checked-is_int64 (pos n) = ground arith
checked-is_int64 (negsuc n) = ground arith

-- Checked Int arithmetic is exact: where the guards of the kernel call hold and the operands are
-- `std::int64_t` values, inc, dec, neg, abs, add, sub and mul give the exact integer if
-- `std::int64_t` holds it, and otherwise the overflow error with the operands of the call.
pub invoke_scalar_kernel-exact :
    (unit : FloatingPointUnit) (host : HostAllocator) (d : PrimitiveDescriptor)
    (s : PrimitiveSignature) (os : List ScalarValue) (location : SourceLocation) (z : ℤ)
    → may_invoke d s os ≡ true
    → AllInt64 os
    → exact s.implementation os ≡ some z
    → let r = invoke_scalar_kernel unit host d s os location in
      r ≡ (
        if is_int64 z
        then successful_kernel (int_scalar z)
        else overflow_result host d s os location)
unfolding invoke_scalar_kernel kernel_result
invoke_scalar_kernel-exact unit host d s os location z m h e =
    let k = kernel-exact unit s.implementation os z h e in
    rw (m, k) (ground (arith, checked-is_int64 z))
