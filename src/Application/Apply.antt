-- ===== src/Application/Apply.antt =====
-- `apply_primitive_impl`, `apply_primitive` and `apply_typed_primitive` of src/application.cpp. The
-- order of the checks is the source's.
use bennu.Prelude.{not, List, [], ◌∷◌, Option, none, some, length, ltb, if◌then◌else◌, ◌==◌, nat_eq}
use bennu.Scalar.Types.{scalar_type_eq, container_eq}
use bennu.Primitive.Types.{
  PrimitiveDescriptor, PrimitiveSignature, PrimitiveImplementation, PrimitiveId, ValueType,
  is_elementwise, implementation_value, id_eq,
}
use bennu.Primitive.Types
use bennu.Error.{SourceLocation, invalid_primitive_table, failure}
use bennu.Value.{Value}
use bennu.Application.Errors.{primitive_error, arity_failure}
use bennu.Application.Context.{
  maximum_application_arity, PrimitiveApplicationContext, PrimitiveApplicationResult,
  application_result, arity_exists, invalid_argument,
}
use bennu.Application.Structural.{apply_structural}
use bennu.Application.Lifted.{apply_lifted}

unfoldable pub apply_primitive_impl :
    PrimitiveApplicationContext
    → PrimitiveDescriptor
    → Option PrimitiveSignature
    → List Value
    → SourceLocation
    → PrimitiveApplicationResult
unfolding arity_exists arity_failure invalid_argument apply_structural apply_lifted primitive_error
apply_primitive_impl context descriptor typed_signature arguments location =
    let names = context.host.names in
    (if not (arity_exists descriptor.signatures (length arguments))
      then application_result context
          (failure (arity_failure names descriptor (length arguments) location))
      else if ltb maximum_application_arity (length arguments)
      then application_result context
          (failure (primitive_error names invalid_primitive_table descriptor location))
      else elim (invalid_argument context.world names descriptor location 0 arguments) [
        | some error ↦ application_result context (failure error)
        | none ↦
            if is_elementwise descriptor.lifting
            then apply_lifted context descriptor typed_signature arguments location
            else apply_structural context descriptor typed_signature arguments location
      ])

unfoldable pub apply_primitive :
    PrimitiveApplicationContext
    → PrimitiveDescriptor
    → List Value
    → SourceLocation
    → PrimitiveApplicationResult
unfolding arity_exists arity_failure primitive_error
apply_primitive context descriptor arguments location =
    let names = context.host.names in
    (if ltb maximum_application_arity (length arguments)
      then (if not (arity_exists descriptor.signatures (length arguments))
          then application_result context
              (failure (arity_failure names descriptor (length arguments) location))
          else application_result context
              (failure (primitive_error names invalid_primitive_table descriptor location)))
      else apply_primitive_impl context descriptor none arguments location)

-- The loop over the signatures: nothing where two have the implementation.
unfoldable pub with_implementation :
    List PrimitiveSignature
    → PrimitiveImplementation
    → Option PrimitiveSignature
    → Option (Option PrimitiveSignature)
with_implementation [] wanted selected = some selected
with_implementation (s ∷ signatures) wanted selected =
    let here = implementation_value s.implementation == implementation_value wanted in
    elim selected [
      | none ↦ with_implementation signatures wanted (if here then some s else none)
      | some found ↦
          let rest = with_implementation signatures wanted (some found) in
          if here then none else rest
    ]

unfoldable pub apply_typed_primitive :
    PrimitiveApplicationContext
    → PrimitiveDescriptor
    → PrimitiveImplementation
    → List Value
    → SourceLocation
    → PrimitiveApplicationResult
unfolding with_implementation apply_primitive_impl primitive_error
apply_typed_primitive context descriptor wanted arguments location =
    let refusal =
      application_result context (
        failure (primitive_error context.host.names invalid_primitive_table descriptor location)) in
    elim (with_implementation descriptor.signatures wanted none) [
      | none ↦ refusal
      | some none ↦ refusal
      | some (some s) ↦
          if implementation_value wanted == implementation_value Types.no_implementation
          then refusal
          else apply_primitive_impl context descriptor (some s) arguments location
    ]
