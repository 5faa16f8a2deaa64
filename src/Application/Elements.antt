-- ===== src/Application/Elements.antt =====
-- The loop of `apply_primitive_impl` of src/application.cpp over the elements of the result.
use bennu.Prelude.{
  ℕ, zero, suc, ◌+◌, Bool, List, [], ◌∷◌, Option, none, some, get_elem?, if◌then◌else◌, ◌==◌,
  nat_eq,
}
use bennu.Prelude.Int.{pos}
use bennu.Scalar.Types.{ScalarType, ScalarValue, boolean, integer, double_precision, scalar_type_eq}
use bennu.Scalar.Binary64.{FloatingPointUnit}
use bennu.Scalar.Conversion.{convert_scalar}
use bennu.Scalar.Conversion
use bennu.Primitive.Types.{PrimitiveDescriptor, PrimitiveSignature, ValueType}
use bennu.Primitive.Kernel.{ScalarKernelResult, invoke_scalar_kernel}
use bennu.Primitive.Kernel
use bennu.Error.{
  Error, SourceLocation, type_mismatch, invalid_primitive_table, HostAllocator, Outcome, success,
  failure,
}
use bennu.Value.{Value, VectorValue, scalar_value, vector_value, make_bool_value, make_int_value}
use bennu.Application.Errors.{primitive_error}

-- An application: what the loop does not change.
pub record Call : Type 0 where
  pub unit : FloatingPointUnit
  pub host : HostAllocator
  pub descriptor : PrimitiveDescriptor
  pub signature : PrimitiveSignature
  pub arguments : List Value
  pub location : SourceLocation
  pub vector_result : Bool

-- The element of a buffer as a scalar.
unfoldable pub buffer_scalar : ScalarType → ScalarValue → ScalarValue
unfolding make_bool_value make_int_value
buffer_scalar boolean e = make_bool_value e.boolean_field
buffer_scalar integer e = make_int_value e.integer_field
buffer_scalar double_precision e = record (make_int_value (pos 0)) {
  kind = double_precision;
  double_bits = e.double_bits;
}

-- Nothing beyond the end of the vector, where the source does not read.
unfoldable pub project_validated_scalar : Value → ℕ → Option ScalarValue
unfolding buffer_scalar
project_validated_scalar (scalar_value s) index = some s
project_validated_scalar (vector_value v) index = elim (get_elem? v.elements index) [
  | none ↦ none
  | some e ↦ some (buffer_scalar v.element_type e)
]

unfoldable pub convert_argument : Value → ScalarType → ℕ → Option ScalarValue
unfolding project_validated_scalar
convert_argument argument parameter index = elim (project_validated_scalar argument index) [
  | none ↦ none
  | some projected ↦ elim (convert_scalar projected parameter).status [
    | Conversion.success ↦ some (convert_scalar projected parameter).value
    | _ ↦ none
  ]
]

unfoldable pub convert_operands : List Value → List ValueType → ℕ → Option (List ScalarValue)
unfolding convert_argument
convert_operands [] parameters index = some []
convert_operands (a ∷ arguments) [] index = none
convert_operands (a ∷ arguments) (p ∷ parameters) index =
    elim (convert_argument a p.element index) [
      | none ↦ none
      | some operand ↦ elim (convert_operands arguments parameters index) [
        | none ↦ none
        | some operands ↦ some (operand ∷ operands)
      ]
    ]

-- What a call of the kernel gives the loop: an overflow is told its element.
unfoldable pub kernel_outcome : Bool → ℕ → ScalarKernelResult → Outcome ScalarValue
kernel_outcome vector_result index result = elim result.status [
  | Kernel.success ↦ success result.value
  | Kernel.domain_failure ↦
      failure
        (if vector_result then record result.error { element_index = some index } else result.error)
  | Kernel.invalid_invocation ↦ failure result.error
]

unfoldable pub evaluate_at : Call → ℕ → Outcome ScalarValue
unfolding convert_operands kernel_outcome primitive_error invoke_scalar_kernel
evaluate_at call index = elim (convert_operands call.arguments call.signature.parameters index) [
  | none ↦ failure (primitive_error call.host type_mismatch call.descriptor call.location)
  | some operands ↦ kernel_outcome call.vector_result index (
      invoke_scalar_kernel call.unit call.host call.descriptor call.signature operands
        call.location)
]

-- Whether the kernel is called for the element.
unfoldable pub invoked_at : Call → ℕ → ℕ
unfolding convert_operands
invoked_at call index = elim (convert_operands call.arguments call.signature.parameters index) [
  | none ↦ 0
  | some operands ↦ 1
]

unfoldable pub set_at : List ScalarValue → ℕ → ScalarValue → List ScalarValue
set_at [] index s = []
set_at (x ∷ xs) zero s = s ∷ xs
set_at (x ∷ xs) (suc index) s = x ∷ set_at xs index s

unfoldable pub store_scalar : VectorValue → ℕ → ScalarValue → Option VectorValue
unfolding set_at
store_scalar v index s =
    if v.element_type == s.kind
    then some (record v { elements = set_at v.elements index s })
    else none

-- The vector as far as it is written, the error that stopped the loop, and the count of the calls
-- of the kernel.
pub record Filled : Type 0 where
  pub vector : VectorValue
  pub error : Option Error
  pub invocations : ℕ

unfoldable pub fill_vector : Call → ℕ → ℕ → VectorValue → ℕ → Filled
unfolding evaluate_at invoked_at store_scalar primitive_error
fill_vector call zero index v invocations = record {
  vector = v;
  error = none;
  invocations = invocations;
}
fill_vector call (suc remaining) index v invocations =
    let invocations' = invocations + invoked_at call index in
    elim (evaluate_at call index) [
      | failure error ↦ record { vector = v; error = some error; invocations = invocations' }
      | success s ↦ elim (store_scalar v index s) [
        | none ↦ record {
          vector = v;
          error =
              some
                (primitive_error call.host invalid_primitive_table call.descriptor call.location);
          invocations = invocations';
        }
        | some v' ↦ fill_vector call remaining (index + 1) v' invocations'
      ]
    ]
