-- ===== src/Application/Accounting.antt =====
-- The accounts of the evaluation contexts in the applications of src/application.cpp.
use bennu.Prelude.{
  ℕ, inl, inr, Bool-cases, Option-cases, true, false, not, Option, none, List, length, ltb, ◌==◌,
  nat_eq, ◌||◌,
}
use bennu.Scalar.Types.{ScalarValue, integer}
use bennu.Error.{SourceLocation, Outcome-cases}
use bennu.Primitive.Types.{
  PrimitiveDescriptor, PrimitiveSignature, is_elementwise, implementation_value, id_eq,
}
use bennu.Primitive.Types
use bennu.HostStorage.Aliasing.{Unaliased}
use bennu.Value.{Value, vector_value}
use bennu.Resources.Types.{EvaluationResources}
use bennu.Resources.World.{World}
use bennu.Resources.Sound.{SoundWorld}
use bennu.Resources.Vector.{allocate_vector}
use bennu.Resources.Charges.{charge_work-SoundWorld}
use bennu.Resources.Reservations.{allocate_vector-SoundWorld}
use bennu.Resources.VectorReleases.{release_vector_reservation-SoundWorld}
use bennu.Resources.Unaliasing.{
  HandsOutFree, allocate_vector-Unaliased, charge_work-Unaliased,
  release_vector_reservation-Unaliased,
}
use bennu.Application.Elements.{Call, Filled, fill_vector}
use bennu.Application.Context.{
  PrimitiveApplicationContext, arity_exists, invalid_argument, maximum_application_arity,
}
use bennu.Application.Structural.{
  selected_structural, iota_count, only_scalar, apply_iota, apply_structural,
}
use bennu.Application.Lifted.{
  call_of, selected_lifted, common_length, apply_scalar, finish_vector, apply_vector, apply_lifted,
}
use bennu.Application.Apply.{apply_primitive_impl, apply_primitive}

-- The accounts of the contexts are right, and no two buffers have one address.
abbrev pub Accounted : World → Type 0
Accounted world = SoundWorld world × Unaliased world.registry

finish_vector-Accounted :
    (resources : EvaluationResources) (world : World) (filled : Filled)
    → Accounted world
    → Accounted (finish_vector resources world filled).world
unfolding finish_vector
finish_vector-Accounted resources world filled a = elim (Option-cases filled.error) [
  | inl none_e ↦ rw (none_e, finish_vector) a
  | inr (error, stopped) ↦
      rw (stopped, finish_vector)
        (
          release_vector_reservation-SoundWorld world resources (vector_value filled.vector) a.0
              a.1,
          release_vector_reservation-Unaliased world resources (vector_value filled.vector) a.1,
        )
]

apply_scalar-Accounted :
    (context : PrimitiveApplicationContext) (call : Call)
    → Accounted context.world
    → Accounted (apply_scalar context call).world
unfolding apply_scalar
apply_scalar-Accounted context call a = (
  charge_work-SoundWorld context.host context.world context.resources 1 call.location
      call.descriptor.name a.0,
  charge_work-Unaliased context.host context.world context.resources 1 call.location
      call.descriptor.name a.1,
)

apply_vector-Accounted :
    (context : PrimitiveApplicationContext) (call : Call) (count : ℕ)
    → HandsOutFree context.host
    → Accounted context.world
    → Accounted (apply_vector context call count).world
unfolding apply_vector
apply_vector-Accounted context call count free a =
    let type = call.signature.result.element in
    let name = call.descriptor.name in
    let step =
      allocate_vector context.host context.world context.resources type count count call.location
        name in
    let after : Accounted step.world = (
      allocate_vector-SoundWorld context.host context.world context.resources type count count
          call.location name a.0,
      allocate_vector-Unaliased context.host context.world context.resources type count count
          call.location name free a.1,
    ) in
    elim (Outcome-cases step.outcome) [
      | inr (error, refusal) ↦ rw (refusal, apply_vector) after
      | inl (v, granted) ↦
          rw (granted, apply_vector)
            (finish_vector-Accounted step.resources step.world
              (fill_vector call count 0 v context.scalar_kernel_invocations) after)
    ]

apply_lifted-Accounted :
    (context : PrimitiveApplicationContext) (descriptor : PrimitiveDescriptor)
    (typed : Option PrimitiveSignature) (arguments : List Value) (location : SourceLocation)
    → HandsOutFree context.host
    → Accounted context.world
    → Accounted (apply_lifted context descriptor typed arguments location).world
unfolding apply_lifted
apply_lifted-Accounted context descriptor typed arguments location free a =
    let names = context.host.names in
    elim (Outcome-cases (selected_lifted names descriptor typed arguments location)) [
      | inr (error, refusal) ↦ rw (refusal, apply_lifted) a
      | inl (s, chosen) ↦
          elim (Outcome-cases (common_length names descriptor location 0 none arguments)) [
            | inr (error, mismatch) ↦ rw (chosen, mismatch, apply_lifted) a
            | inl (shape, common) ↦ elim (Option-cases shape) [
              | inl scalar_e ↦
                  rw (chosen, common, scalar_e, apply_lifted)
                    (apply_scalar-Accounted context
                      (call_of context descriptor s arguments location false) a)
              | inr (n, vector_e) ↦
                  rw (chosen, common, vector_e, apply_lifted)
                    (apply_vector-Accounted context
                      (call_of context descriptor s arguments location true) n free a)
            ]
          ]
    ]

apply_iota-Accounted :
    (context : PrimitiveApplicationContext) (descriptor : PrimitiveDescriptor)
    (location : SourceLocation) (bound : ScalarValue)
    → HandsOutFree context.host
    → Accounted context.world
    → Accounted (apply_iota context descriptor location bound).world
unfolding apply_iota
apply_iota-Accounted context descriptor location bound free a = (
  allocate_vector-SoundWorld context.host context.world context.resources integer (iota_count bound)
      _ location descriptor.name a.0,
  allocate_vector-Unaliased context.host context.world context.resources integer (iota_count bound)
      _ location descriptor.name free a.1,
)

apply_structural-Accounted :
    (context : PrimitiveApplicationContext) (descriptor : PrimitiveDescriptor)
    (typed : Option PrimitiveSignature) (arguments : List Value) (location : SourceLocation)
    → HandsOutFree context.host
    → Accounted context.world
    → Accounted (apply_structural context descriptor typed arguments location).world
unfolding apply_structural
apply_structural-Accounted context descriptor typed arguments location free a =
    elim (Option-cases (selected_structural typed descriptor arguments)) [
      | inl nothing ↦ rw (nothing, apply_structural) a
      | inr (s, found) ↦
          elim (Bool-cases (
            not (implementation_value s.implementation == implementation_value Types.iota_integer)
            || not (descriptor.id == Types.iota))) [
              | inl other ↦ rw (found, other, apply_structural) a
              | inr is_iota ↦ elim (Option-cases (only_scalar arguments)) [
                | inl many ↦ rw (found, is_iota, many, apply_structural) a
                | inr (bound, one) ↦
                    rw (found, is_iota, one, apply_structural)
                      (apply_iota-Accounted context descriptor location bound free a)
              ]
            ]
    ]

-- The implementation keeps the accounts, whichever signature the caller has chosen.
pub apply_primitive_impl-Accounted :
    (context : PrimitiveApplicationContext) (descriptor : PrimitiveDescriptor)
    (typed : Option PrimitiveSignature) (arguments : List Value) (location : SourceLocation)
    → HandsOutFree context.host
    → Accounted context.world
    → Accounted (apply_primitive_impl context descriptor typed arguments location).world
unfolding apply_primitive_impl
apply_primitive_impl-Accounted context descriptor typed arguments location free a =
    elim (Bool-cases (arity_exists descriptor.signatures (length arguments))) [
      | inr absent ↦ rw (absent, apply_primitive_impl) a
      | inl present ↦ elim (Bool-cases (ltb maximum_application_arity (length arguments))) [
        | inl many ↦ rw (present, many, apply_primitive_impl) a
        | inr few ↦
            elim (Option-cases
              (invalid_argument context.world context.host.names descriptor location 0 arguments)) [
                | inr (error, invalid) ↦ rw (present, few, invalid, apply_primitive_impl) a
                | inl valid ↦ elim (Bool-cases (is_elementwise descriptor.lifting)) [
                  | inl lifted ↦
                      rw (present, few, valid, lifted, apply_primitive_impl)
                        (apply_lifted-Accounted context descriptor typed arguments location free a)
                  | inr structural ↦
                      rw (present, few, valid, structural, apply_primitive_impl)
                        (apply_structural-Accounted context descriptor typed arguments location free
                          a)
                ]
              ]
      ]
    ]

-- An application of a primitive keeps the accounts of every evaluation context, whatever it returns:
-- the live bytes of each owner are the bytes bound to it and its usage is within its limits. No two
-- buffers have one address before or after, when the allocator hands out free addresses only.
pub apply_primitive-Accounted :
    (context : PrimitiveApplicationContext) (descriptor : PrimitiveDescriptor)
    (arguments : List Value) (location : SourceLocation)
    → HandsOutFree context.host
    → Accounted context.world
    → Accounted (apply_primitive context descriptor arguments location).world
unfolding apply_primitive
apply_primitive-Accounted context descriptor arguments location free a =
    elim (Bool-cases (ltb maximum_application_arity (length arguments))) [
      | inr few ↦
          rw (few, apply_primitive)
            (apply_primitive_impl-Accounted context descriptor none arguments location free a)
      | inl many ↦ elim (Bool-cases (arity_exists descriptor.signatures (length arguments))) [
        | inl present ↦ rw (many, present, apply_primitive) a
        | inr absent ↦ rw (many, absent, apply_primitive) a
      ]
    ]
