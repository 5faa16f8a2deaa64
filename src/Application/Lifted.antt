-- ===== src/Application/Lifted.antt =====
-- The branch of `apply_primitive_impl` of src/application.cpp for a lifted primitive: selection,
-- shape, admission of the result and then the kernel on each element.
use bennu.Prelude.{
  ℕ, ◌+◌, Bool, true, false, ◌&&◌, List, [], ◌∷◌, map, Option, none, some, length, if◌then◌else◌,
  ◌==◌, nat_eq,
}
use bennu.Scalar.Types.{scalar_type_eq, container_eq}
use bennu.Primitive.Types.{PrimitiveDescriptor, PrimitiveSignature, ValueType, id_eq}
use bennu.Primitive.Select.{select_primitive_signature, size_max}
use bennu.Primitive.Select
use bennu.Error.{SourceLocation, shape_mismatch, Outcome, success, failure, HostAllocator}
use bennu.Value.{Value, scalar_value, vector_value}
use bennu.Resources.Types.{EvaluationResources}
use bennu.Resources.World.{World}
use bennu.Resources.Vector.{allocate_vector}
use bennu.Resources.Work.{charge_work}
use bennu.Resources.Release.{release_vector_reservation}
use bennu.Application.Errors.{
  primitive_error, arity_failure, type_error, value_scalar_type, accepts_element,
}
use bennu.Application.Elements.{Call, evaluate_at, invoked_at, fill_vector, Filled}
use bennu.Application.Context.{
  PrimitiveApplicationContext, PrimitiveApplicationResult, application_result, value_from_scalar,
  with_primitive_id,
}

unfoldable pub accepts_values : List ValueType → List Value → Bool
unfolding value_scalar_type
accepts_values [] [] = true
accepts_values (p ∷ parameters) (a ∷ arguments) =
    accepts_element (value_scalar_type a) p.element && accepts_values parameters arguments
accepts_values _ _ = false

-- The signature of a lifted call: the typed one if it accepts, or the selected one.
unfoldable pub selected_lifted :
    HostAllocator
    → PrimitiveDescriptor
    → Option PrimitiveSignature
    → List Value
    → SourceLocation
    → Outcome PrimitiveSignature
unfolding select_primitive_signature accepts_values type_error arity_failure value_scalar_type
selected_lifted host descriptor (some s) arguments location =
    if accepts_values s.parameters arguments
    then success s
    else failure (type_error host descriptor arguments location)
selected_lifted host descriptor none arguments location =
    let selected = select_primitive_signature descriptor (map value_scalar_type arguments) in
    let refusal = failure (type_error host descriptor arguments location) in
    elim selected.status [
      | Select.arity_mismatch ↦ failure (arity_failure host descriptor (length arguments) location)
      | Select.success ↦ elim selected.signature [ none ↦ refusal | some s ↦ success s ]
      | _ ↦ refusal
    ]

-- The loop over the shapes: the length of the vectors so far, or none before the first.
unfoldable pub common_length :
    HostAllocator
    → PrimitiveDescriptor
    → SourceLocation
    → ℕ
    → Option ℕ
    → List Value
    → Outcome (Option ℕ)
unfolding primitive_error
common_length host descriptor location index found [] = success found
common_length host descriptor location index found (scalar_value s ∷ arguments) =
    common_length host descriptor location (index + 1) found arguments
common_length host descriptor location index none (vector_value v ∷ arguments) =
    common_length host descriptor location (index + 1) (some (length v.elements)) arguments
common_length host descriptor location index (some n) (vector_value v ∷ arguments) =
    if length v.elements == n
    then common_length host descriptor location (index + 1) (some n) arguments
    else failure (record (primitive_error host shape_mismatch descriptor location) {
      argument_position = some (index + 1);
      shape = some (record { expected = n ∷ []; actual = length v.elements ∷ [] });
    })

abbrev pub call_of :
    PrimitiveApplicationContext
    → PrimitiveDescriptor
    → PrimitiveSignature
    → List Value
    → SourceLocation
    → Bool
    → Call
call_of context descriptor signature arguments location vector_result = record {
  unit = context.unit;
  host = context.host.names;
  descriptor = descriptor;
  signature = signature;
  arguments = arguments;
  location = location;
  vector_result = vector_result;
}

-- A scalar result: one unit of work, and the kernel on the operands.
unfoldable pub apply_scalar : PrimitiveApplicationContext → Call → PrimitiveApplicationResult
unfolding charge_work evaluate_at invoked_at value_from_scalar with_primitive_id
apply_scalar context call =
    let admitted =
      charge_work context.host context.world context.resources 1 call.location
        call.descriptor.name in
    let invocations = context.scalar_kernel_invocations in
    record {
      outcome = elim admitted.outcome [
        | failure error ↦ failure (with_primitive_id call.descriptor error)
        | success u ↦ elim (evaluate_at call 0) [
          | failure error ↦ failure error
          | success s ↦ success (value_from_scalar s)
        ]
      ];
      resources = admitted.resources;
      world = admitted.world;
      scalar_kernel_invocations = elim admitted.outcome [
        | failure error ↦ invocations
        | success u ↦ invocations + invoked_at call 0
      ];
    }

-- What follows the loop: a vector that an error cut short is released.
unfoldable pub finish_vector : EvaluationResources → World → Filled → PrimitiveApplicationResult
unfolding release_vector_reservation
finish_vector resources world filled =
    let release = release_vector_reservation world resources (vector_value filled.vector) in
    elim filled.error [
      | none ↦ record {
        outcome = success (vector_value filled.vector);
        resources = resources;
        world = world;
        scalar_kernel_invocations = filled.invocations;
      }
      | some error ↦ record {
        outcome = failure error;
        resources = release.resources;
        world = release.world;
        scalar_kernel_invocations = filled.invocations;
      }
    ]

unfoldable pub apply_vector : PrimitiveApplicationContext → Call → ℕ → PrimitiveApplicationResult
unfolding allocate_vector fill_vector finish_vector with_primitive_id
apply_vector context call count =
    let step =
      allocate_vector context.host context.world context.resources call.signature.result.element
        count count call.location call.descriptor.name in
    let invocations = context.scalar_kernel_invocations in
    elim step.outcome [
      | failure error ↦ record {
        outcome = failure (with_primitive_id call.descriptor error);
        resources = step.resources;
        world = step.world;
        scalar_kernel_invocations = invocations;
      }
      | success v ↦ finish_vector step.resources step.world (fill_vector call count 0 v invocations)
    ]

unfoldable pub apply_lifted :
    PrimitiveApplicationContext
    → PrimitiveDescriptor
    → Option PrimitiveSignature
    → List Value
    → SourceLocation
    → PrimitiveApplicationResult
unfolding selected_lifted common_length apply_scalar apply_vector
apply_lifted context descriptor typed_signature arguments location =
    let names = context.host.names in
    elim (selected_lifted names descriptor typed_signature arguments location) [
      | failure error ↦ application_result context (failure error)
      | success s ↦ elim (common_length names descriptor location 0 none arguments) [
        | failure error ↦ application_result context (failure error)
        | success none ↦
            apply_scalar context (call_of context descriptor s arguments location false)
        | success (some n) ↦
            apply_vector context (call_of context descriptor s arguments location true) n
      ]
    ]
