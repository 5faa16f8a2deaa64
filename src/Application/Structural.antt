-- ===== src/Application/Structural.antt =====
-- The branch of `apply_primitive_impl` of src/application.cpp for a primitive that is not lifted.
use bennu.Prelude.{
  ℕ, zero, suc, ◌+◌, Bool, true, false, not, ◌&&◌, ◌||◌, List, [], ◌∷◌, Option, none, some, ltb,
  if◌then◌else◌, ◌==◌, nat_eq,
}
use bennu.Prelude.Int.{pos, negsuc}
use bennu.Scalar.Types.{ScalarValue, integer, scalar_type_eq, container_eq}
use bennu.Primitive.Types.{
  PrimitiveDescriptor, PrimitiveSignature, PrimitiveImplementation, PrimitiveId, ValueType,
  is_elementwise, implementation_value, id_eq,
}
use bennu.Primitive.Types
use bennu.Primitive.Select.{size_max}
use bennu.Error.{SourceLocation, invalid_primitive_table, success, failure}
use bennu.Value.{Value, scalar_value, vector_value, make_int_value, container}
use bennu.Resources.Vector.{allocate_vector}
use bennu.Application.Errors.{primitive_error, type_error, value_scalar_type}
use bennu.Application.Context.{
  PrimitiveApplicationContext, PrimitiveApplicationResult, application_result, with_primitive_id,
}

unfoldable pub matches_values : List ValueType → List Value → Bool
unfolding container value_scalar_type
matches_values [] [] = true
matches_values (p ∷ parameters) (a ∷ arguments) =
    (p.container == container a && p.element == value_scalar_type a)
    && matches_values parameters arguments
matches_values _ _ = false

unfoldable pub first_matching : List PrimitiveSignature → List Value → Option PrimitiveSignature
unfolding matches_values
first_matching [] arguments = none
first_matching (s ∷ signatures) arguments =
    if matches_values s.parameters arguments then some s else first_matching signatures arguments

unfoldable pub selected_structural :
    Option PrimitiveSignature → PrimitiveDescriptor → List Value → Option PrimitiveSignature
unfolding first_matching
selected_structural none descriptor arguments = first_matching descriptor.signatures arguments
selected_structural (some s) descriptor arguments =
    if matches_values s.parameters arguments then some s else none

-- The bound of `iota` as a count: 0 unless it is above 0.
unfoldable pub iota_count : ScalarValue → ℕ
iota_count bound = elim bound.integer_field [ pos n ↦ n | negsuc n ↦ 0 ]

unfoldable pub iota_elements : ℕ → ℕ → List ScalarValue
unfolding make_int_value
iota_elements zero index = []
iota_elements (suc remaining) index =
    make_int_value (pos (index + 1)) ∷ iota_elements remaining (index + 1)

unfoldable pub apply_iota :
    PrimitiveApplicationContext
    → PrimitiveDescriptor
    → SourceLocation
    → ScalarValue
    → PrimitiveApplicationResult
unfolding iota_count iota_elements with_primitive_id
apply_iota context descriptor location bound =
    let count = iota_count bound in
    let units = if ltb size_max count then size_max else count in
    let step =
      allocate_vector context.host context.world context.resources integer count units location
        descriptor.name in
    record {
      outcome = elim step.outcome [
        | failure error ↦ failure (with_primitive_id descriptor error)
        | success v ↦ success (vector_value (record v { elements = iota_elements units 0 }))
      ];
      resources = step.resources;
      world = step.world;
      scalar_kernel_invocations = context.scalar_kernel_invocations;
    }

-- The scalar part of a valid value, which holds 0 in a vector.
unfoldable pub scalar_field : Value → ScalarValue
unfolding make_int_value
scalar_field (scalar_value s) = s
scalar_field (vector_value v) = make_int_value (pos 0)

unfoldable pub only_scalar : List Value → Option ScalarValue
unfolding scalar_field
only_scalar (a ∷ []) = some (scalar_field a)
only_scalar _ = none

-- The branch for a descriptor that is not lifted.
unfoldable pub apply_structural :
    PrimitiveApplicationContext
    → PrimitiveDescriptor
    → Option PrimitiveSignature
    → List Value
    → SourceLocation
    → PrimitiveApplicationResult
unfolding selected_structural apply_iota only_scalar primitive_error type_error
apply_structural context descriptor typed_signature arguments location =
    let names = context.host.names in
    let unsupported =
      application_result context
        (failure (primitive_error names invalid_primitive_table descriptor location)) in
    elim (selected_structural typed_signature descriptor arguments) [
      | none ↦ application_result context (failure (type_error names descriptor arguments location))
      | some s ↦
          if not (implementation_value s.implementation == implementation_value Types.iota_integer)
            || not (descriptor.id == Types.iota)
          then unsupported
          else elim (only_scalar arguments) [
            | none ↦ unsupported
            | some bound ↦ apply_iota context descriptor location bound
          ]
    ]
