-- ===== src/Primitive/Kernel.antt =====
-- `invoke_scalar_kernel` of src/primitive.cpp. Results and reports are in the children.
pub mod Result
pub mod Exact
use Prim.Native.Nat.{bit_and, bit_xor}
use bennu.Prelude.{
  ℕ, ◌^◌, Bool, true, false, not, ◌&&◌, ◌||◌, List, [], ◌∷◌, map, Option, none, some, length,
  if◌then◌else◌, ◌==◌, nat_eq, bool_eq,
}
use bennu.Prelude.Int.{ℤ, pos, eqb_ℤ, ltb_ℤ}
use bennu.Scalar.Types.{
  ScalarType, boolean, integer, double_precision, scalar, ScalarValue, empty_scalar_value,
  scalar_type_eq, container_eq,
}
use bennu.Scalar.Binary64.{
  FloatingPointUnit, StrictBinary64Operation, strict_binary64_arithmetic, normalize_double,
  valid_scalar, binary64_equal, binary64_less_than, binary64_is_positive, binary64_is_negative,
  complement, sign_bit,
}
use bennu.Scalar.Binary64
use bennu.Primitive.Types.{
  PrimitiveImplementation, PrimitiveSignature, PrimitiveDescriptor, ValueType, is_elementwise,
}
use bennu.Primitive.Types
use bennu.Primitive.Implementation.{implementation_matches}
use bennu.Primitive.Integers
use bennu.Error.{
  Error, make_error, SourceLocation, start_location, no_error, domain_error, HostAllocator,
  make_primitive_error_context, integer_overflow, DomainErrorContext,
}

-- The `.scalar` of `make_bool_value`, `make_int_value` and `make_double_value`.
abbrev pub bool_scalar : Bool → ScalarValue
bool_scalar b = record { kind = boolean; boolean_field = b; integer_field = pos 0; double_bits = 0 }

abbrev pub int_scalar : ℤ → ScalarValue
int_scalar a = record { kind = integer; boolean_field = false; integer_field = a; double_bits = 0 }

abbrev pub double_scalar : ℕ → ScalarValue
double_scalar bits = record {
  kind = double_precision;
  boolean_field = false;
  integer_field = pos 0;
  double_bits = normalize_double bits;
}

pub data ScalarKernelStatus : Type 0 where
  success domain_failure invalid_invocation : ScalarKernelStatus

pub record ScalarKernelResult : Type 0 where
  pub status : ScalarKernelStatus
  pub value : ScalarValue
  pub error : Error

unfoldable pub signature_belongs_to : List PrimitiveSignature → PrimitiveSignature → Bool
signature_belongs_to [] signature = false
signature_belongs_to (s ∷ rest) signature =
    s.address == signature.address || signature_belongs_to rest signature

unfoldable pub invalid_kernel_invocation : ScalarKernelResult
unfolding make_error
invalid_kernel_invocation = record {
  status = invalid_invocation;
  value = empty_scalar_value;
  error = make_error no_error start_location;
}

unfoldable pub successful_kernel : ScalarValue → ScalarKernelResult
unfolding make_error
successful_kernel value = record {
  status = success;
  value = value;
  error = make_error no_error start_location;
}

-- The result `integer_overflow` of the source.
unfoldable pub overflow_result :
    HostAllocator
    → PrimitiveDescriptor
    → PrimitiveSignature
    → List ScalarValue
    → SourceLocation
    → ScalarKernelResult
unfolding make_error make_primitive_error_context
overflow_result host descriptor signature operands location = record {
  status = domain_failure;
  value = empty_scalar_value;
  error = record (make_error domain_error location) {
    primitive = make_primitive_error_context host descriptor.name (some descriptor.id);
    domain = some (record {
      reason = integer_overflow;
      signature = record {
        parameter_types = map (λ (p : ValueType). p.element) signature.parameters;
        result_type = signature.result.element;
      };
      operands = operands;
    });
  };
}

-- What a case of the switch makes of its operands; `overflow` stands for the call of
-- `integer_overflow`, and `unfit` for operands that no signature of the case has.
pub data Outcome : Type 0 where
  value_outcome : ScalarValue → Outcome
  overflow unfit : Outcome

abbrev int_outcome : Option ℤ → Outcome
int_outcome none = overflow
int_outcome (some a) = value_outcome (int_scalar a)

abbrev bool_outcome : Bool → Outcome
bool_outcome b = value_outcome (bool_scalar b)

abbrev double_outcome : ℕ → Outcome
double_outcome bits = value_outcome (double_scalar bits)

abbrev unary : List ScalarValue → (ScalarValue → Outcome) → Outcome
unary (a ∷ []) f = f a
unary _ f = unfit

abbrev binary : List ScalarValue → (ScalarValue → ScalarValue → Outcome) → Outcome
binary (a ∷ b ∷ []) f = f a b
binary _ f = unfit

-- The bits of 1.0.
abbrev one_bits : ℕ
one_bits = 0x3ff0000000000000

-- The switch on the implementation.
unfoldable pub kernel : FloatingPointUnit → PrimitiveImplementation → List ScalarValue → Outcome
kernel unit Types.inc_integer operands =
    unary operands λ a. int_outcome (Integers.inc_integer a.integer_field)
kernel unit Types.inc_double operands =
    unary operands
      λ a. double_outcome (strict_binary64_arithmetic unit a.double_bits one_bits Binary64.add)
kernel unit Types.add_integer operands =
    binary operands λ a b. int_outcome (Integers.add_integer a.integer_field b.integer_field)
kernel unit Types.add_double operands =
    binary operands λ a b.
      double_outcome (strict_binary64_arithmetic unit a.double_bits b.double_bits Binary64.add)
kernel unit Types.equals_boolean operands =
    binary operands λ a b. bool_outcome (a.boolean_field == b.boolean_field)
kernel unit Types.equals_integer operands =
    binary operands λ a b. bool_outcome (eqb_ℤ a.integer_field b.integer_field)
kernel unit Types.equals_double operands =
    binary operands λ a b. bool_outcome (binary64_equal a.double_bits b.double_bits)
kernel unit Types.logical_not_boolean operands =
    unary operands λ a. bool_outcome (not a.boolean_field)
kernel unit Types.logical_and_boolean operands =
    binary operands λ a b. bool_outcome (a.boolean_field && b.boolean_field)
kernel unit Types.logical_or_boolean operands =
    binary operands λ a b. bool_outcome (a.boolean_field || b.boolean_field)
kernel unit Types.not_equals_boolean operands =
    binary operands λ a b. bool_outcome (not (a.boolean_field == b.boolean_field))
kernel unit Types.not_equals_integer operands =
    binary operands λ a b. bool_outcome (not (eqb_ℤ a.integer_field b.integer_field))
kernel unit Types.not_equals_double operands =
    binary operands λ a b. bool_outcome (not (binary64_equal a.double_bits b.double_bits))
kernel unit Types.odd_integer operands =
    unary operands λ a. bool_outcome (Integers.odd_integer a.integer_field)
kernel unit Types.even_integer operands =
    unary operands λ a. bool_outcome (Integers.even_integer a.integer_field)
kernel unit Types.is_positive_integer operands =
    unary operands λ a. bool_outcome (Integers.is_positive_integer a.integer_field)
kernel unit Types.is_positive_double operands =
    unary operands λ a. bool_outcome (binary64_is_positive a.double_bits)
kernel unit Types.is_negative_integer operands =
    unary operands λ a. bool_outcome (Integers.is_negative_integer a.integer_field)
kernel unit Types.is_negative_double operands =
    unary operands λ a. bool_outcome (binary64_is_negative a.double_bits)
kernel unit Types.less_than_integer operands =
    binary operands λ a b. bool_outcome (ltb_ℤ a.integer_field b.integer_field)
kernel unit Types.less_than_double operands =
    binary operands λ a b. bool_outcome (binary64_less_than a.double_bits b.double_bits)
kernel unit Types.greater_than_integer operands =
    binary operands λ a b. bool_outcome (ltb_ℤ b.integer_field a.integer_field)
kernel unit Types.greater_than_double operands =
    binary operands λ a b. bool_outcome (binary64_less_than b.double_bits a.double_bits)
kernel unit Types.dec_integer operands =
    unary operands λ a. int_outcome (Integers.dec_integer a.integer_field)
kernel unit Types.neg_integer operands =
    unary operands λ a. int_outcome (Integers.neg_integer a.integer_field)
kernel unit Types.abs_integer operands =
    unary operands λ a. int_outcome (Integers.abs_integer a.integer_field)
kernel unit Types.sub_integer operands =
    binary operands λ a b. int_outcome (Integers.sub_integer a.integer_field b.integer_field)
kernel unit Types.mul_integer operands =
    binary operands λ a b. int_outcome (Integers.mul_integer a.integer_field b.integer_field)
kernel unit Types.dec_double operands =
    unary operands
      λ a. double_outcome (strict_binary64_arithmetic unit a.double_bits one_bits Binary64.subtract)
kernel unit Types.neg_double operands =
    unary operands λ a. double_outcome (bit_xor a.double_bits sign_bit)
kernel unit Types.abs_double operands =
    unary operands λ a. double_outcome (bit_and a.double_bits (complement sign_bit))
kernel unit Types.sub_double operands = binary operands λ a b.
    double_outcome (strict_binary64_arithmetic unit a.double_bits b.double_bits Binary64.subtract)
kernel unit Types.mul_double operands = binary operands λ a b.
    double_outcome (strict_binary64_arithmetic unit a.double_bits b.double_bits Binary64.multiply)
kernel unit Types.no_implementation operands = unfit
kernel unit Types.iota_integer operands = unfit

-- The loop over the operands: each is valid and of the type of its parameter.
unfoldable pub operands_match : List ScalarValue → List ValueType → Bool
operands_match [] [] = true
operands_match (o ∷ os) (p ∷ ps) = valid_scalar o && (o.kind == p.element && operands_match os ps)
operands_match _ _ = false

-- The guards in front of the switch; `operands_match` compares the counts as well.
unfoldable pub may_invoke : PrimitiveDescriptor → PrimitiveSignature → List ScalarValue → Bool
may_invoke descriptor signature operands =
    is_elementwise descriptor.lifting
    && (signature_belongs_to descriptor.signatures signature
        && (implementation_matches descriptor.id signature
            && (length signature.parameters == length operands
                && (signature.result.container == scalar
                    && operands_match operands signature.parameters))))

unfoldable pub kernel_result :
    HostAllocator
    → PrimitiveDescriptor
    → PrimitiveSignature
    → List ScalarValue
    → SourceLocation
    → Outcome
    → ScalarKernelResult
kernel_result host descriptor signature operands location (value_outcome v) = successful_kernel v
kernel_result host descriptor signature operands location overflow =
    overflow_result host descriptor signature operands location
kernel_result host descriptor signature operands location unfit = invalid_kernel_invocation

unfoldable pub invoke_scalar_kernel :
    FloatingPointUnit
    → HostAllocator
    → PrimitiveDescriptor
    → PrimitiveSignature
    → List ScalarValue
    → SourceLocation
    → ScalarKernelResult
unfolding kernel_result
invoke_scalar_kernel unit host descriptor signature operands location =
    if not (may_invoke descriptor signature operands)
    then invalid_kernel_invocation
    else kernel_result host descriptor signature operands location
        (kernel unit signature.implementation operands)
