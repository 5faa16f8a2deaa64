-- ===== src/Application/Refunds.antt =====
-- The result of a lifted application of src/application.cpp on vectors: `apply_vector`.
use bennu.Prelude.{
  ℕ, zero, suc, ◌+◌, ◌<◌, ◌≡◌, ◌⊎◌, inl, inr, true, none, some, Option-cases, List, [], ◌∷◌, length,
  nat_eq, arith, refl,
}
use bennu.Scalar.Types.{ScalarValue, scalar_type_eq}
use bennu.Scalar.Binary64.{is_canonical_double, valid_scalar-canonical}
use bennu.Error.{Error, Outcome, success, failure, Outcome-cases}
use bennu.Value.{VectorValue, vector_value}
use bennu.Resources.Types.{EvaluationResources, EvaluationResourceState}
use bennu.Resources.World.{World, acquire_validated_resource_state}
use bennu.Resources.Transaction.{Step}
use bennu.Resources.Validate.{all_canonical}
use bennu.Resources.Vector.{allocate_vector}
use bennu.Resources.Refund.{InUse, release-InUse}
use bennu.Resources.Fresh.{Fresh, allocate_vector-Fresh}
use bennu.Application.Elements.{
  Call, evaluate_at, invoked_at, Filled, fill_vector, set_at, store_scalar,
}
use bennu.Application.Context.{
  PrimitiveApplicationContext, PrimitiveApplicationResult, with_primitive_id,
}
use bennu.Application.Lifted.{apply_vector, finish_vector}
use bennu.Application.Pointwise.{
  Evaluated, Complete, Stopped, Loop, fill_vector-Loop, evaluate_at-Sound,
}

set_at-canonical :
    (xs : List ScalarValue) (index : ℕ) (s : ScalarValue)
    → is_canonical_double s.double_bits ≡ true
    → all_canonical xs ≡ true
    → all_canonical (set_at xs index s) ≡ true
unfolding set_at all_canonical
set_at-canonical [] index s c all = refl
set_at-canonical (x ∷ xs) zero s c all = ground (arith, c, all)
set_at-canonical (x ∷ xs) (suc index) s c all =
    ground (arith, all, set_at-canonical xs index s c (ground (arith, all)))

fill_vector-canonical :
    (call : Call) (remaining index : ℕ) (v : VectorValue) (invocations : ℕ)
    → all_canonical v.elements ≡ true
    → all_canonical (fill_vector call remaining index v invocations).vector.elements ≡ true
unfolding fill_vector store_scalar
fill_vector-canonical call zero index v invocations c = c
fill_vector-canonical call (suc remaining) index v invocations c =
    elim (Outcome-cases (evaluate_at call index)) [
      | inr (error, failed) ↦ rw (failed, fill_vector) c
      | inl (s, e) ↦ elim (Option-cases (store_scalar v index s)) [
        | inl refused ↦ rw (e, refused, fill_vector) c
        | inr (v', put) ↦
            let sound = evaluate_at-Sound call index s e in
            let written : v' ≡ record v { elements = set_at v.elements index s } =
              ground (arith, put) in
            let c' : all_canonical v'.elements ≡ true =
              rw written
                (set_at-canonical v.elements index s (valid_scalar-canonical s sound.0) c) in
            rw (e, put, fill_vector)
              (fill_vector-canonical call remaining (index + 1) v'
                (invocations + invoked_at call index) c')
      ]
    ]

-- The elements of a vector in use can be written over.
written-InUse :
    (world : World) (resources : EvaluationResources) (state : EvaluationResourceState)
    (v w : VectorValue)
    → InUse world resources state v
    → w ≡ record v { elements = w.elements }
    → length w.elements ≡ length v.elements
    → all_canonical w.elements ≡ true
    → InUse world resources state w
written-InUse world resources state v w u same size canonical = rw same (record {
  buffer_record = u.buffer_record;
  rest = u.rest;
  ordinal = u.ordinal;
  shape = u.shape;
  tracked = u.tracked;
  bytes = rw size u.bytes;
  filled = u.filled;
  fits = rw size u.fits;
  active = u.active;
  owner = u.owner;
  numbered = u.numbered;
  canonical = canonical;
  acquired = u.acquired;
  enough = u.enough;
})

-- The two ends of a lifted application on vectors.
finish_vector_complete :
    (resources : EvaluationResources) (world : World) (f : Filled)
    → f.error ≡ none
    → (finish_vector resources world f).outcome ≡ success (vector_value f.vector)
unfolding finish_vector
finish_vector_complete resources world f e = rw (e, finish_vector) refl

finish_vector_stopped :
    (resources : EvaluationResources) (world : World) (f : Filled) (error : Error)
    → f.error ≡ some error
    → (finish_vector resources world f).outcome ≡ failure error
unfolding finish_vector
finish_vector_stopped resources world f error e = rw (e, finish_vector) refl

finish_vector_calls :
    (resources : EvaluationResources) (world : World) (f : Filled)
    → (finish_vector resources world f).scalar_kernel_invocations ≡ f.invocations
unfolding finish_vector
finish_vector_calls resources world f = ground arith

-- An allocation that is refused is the result, with the primitive's name in the error.
abbrev pub Refused : PrimitiveApplicationContext → Call → ℕ → PrimitiveApplicationResult → Type 0
Refused context call count result =
    (error : Error) × ((allocate_vector context.host context.world context.resources
        call.signature.result.element count count call.location call.descriptor.name).outcome
      ≡ failure error)
    × (result.outcome ≡ failure (with_primitive_id call.descriptor error))
    × (result.scalar_kernel_invocations ≡ context.scalar_kernel_invocations)

-- Every element has a result: the vector of them is returned.
abbrev pub Applied : PrimitiveApplicationContext → Call → ℕ → PrimitiveApplicationResult → Type 0
Applied context call count result =
    (v : VectorValue) × (result.outcome ≡ success (vector_value v))
    × (v.element_type ≡ call.signature.result.element)
    × (length v.elements ≡ count)
    × Evaluated call v.elements 0 count
    × (result.scalar_kernel_invocations ≡ context.scalar_kernel_invocations + count)

-- The first element without a result gives the error, and the vector's bytes are given back.
abbrev pub CutShort : PrimitiveApplicationContext → Call → ℕ → PrimitiveApplicationResult → Type 0
CutShort context call count result =
    (k : ℕ) × (error : Error) × (state : EvaluationResourceState) × (k < count)
    × (result.outcome ≡ failure error)
    × (evaluate_at call k ≡ failure error)
    × ((i : ℕ) → i < k → (s : ScalarValue) × (evaluate_at call i ≡ success s))
    × (result.scalar_kernel_invocations ≡ context.scalar_kernel_invocations + k + invoked_at call k)
    × (acquire_validated_resource_state context.world.states context.resources ≡ some state)
    × (result.resources.live_evaluation_bytes ≡ state.live_evaluation_bytes)

cut-Refunds :
    (resources : EvaluationResources) (world : World) (state : EvaluationResourceState) (f : Filled)
    (error : Error) (live : ℕ)
    → f.error ≡ some error
    → InUse world resources state f.vector
    → state.live_evaluation_bytes ≡ live + f.vector.canonical_bytes
    → (finish_vector resources world f).resources.live_evaluation_bytes ≡ live
unfolding finish_vector
cut-Refunds resources world state f error live e u sum =
    rw (e, finish_vector) (omega (arith, (release-InUse world resources state f.vector u).1, sum))

module _ (context : PrimitiveApplicationContext) (call : Call) (count : ℕ) (v : VectorValue)
    (state : EvaluationResourceState) where
  abbrev step : Step {0} (Outcome VectorValue)
  step =
      allocate_vector context.host context.world context.resources call.signature.result.element
        count count call.location call.descriptor.name

  abbrev f : Filled
  f = fill_vector call count 0 v context.scalar_kernel_invocations

  refunded :
      Fresh context.resources call.signature.result.element count v state step
      → Loop call 0 count context.scalar_kernel_invocations v f
      → (error : Error) → f.error ≡ some error
      → 0 < count
      → (finish_vector step.resources step.world f).resources.live_evaluation_bytes
        ≡ state.live_evaluation_bytes
  refunded fresh loop error stop some_left = elim fresh.storage [
    | inl (nothing, empty) ↦ absurd (omega (arith, nothing, some_left))
    | inr (state', u, size, live) ↦
        let canonical =
          fill_vector-canonical call count 0 v context.scalar_kernel_invocations u.canonical in
        let w =
          written-InUse step.world step.resources state' v f.vector u loop.shape loop.size
            canonical in
        let same : f.vector.canonical_bytes ≡ v.canonical_bytes = rw loop.shape refl in
        cut-Refunds step.resources step.world state' f error state.live_evaluation_bytes stop w
          (omega (arith, live, fresh.charged, size, same))
  ]

  Loop-CutShort :
      acquire_validated_resource_state context.world.states context.resources ≡ some state
      → Fresh context.resources call.signature.result.element count v state step
      → Loop call 0 count context.scalar_kernel_invocations v f
      → Stopped call 0 count context.scalar_kernel_invocations f
      → CutShort context call count (finish_vector step.resources step.world f)
  Loop-CutShort acquired fresh loop (k, error, low, high, stop, failed, all, calls) = (
    k,
    error,
    state,
    omega (arith, high),
    finish_vector_stopped step.resources step.world f error stop,
    failed,
    (λ i h. let e = all i (omega arith) h in (e.0, e.1)),
    omega (arith, calls, finish_vector_calls step.resources step.world f),
    acquired,
    refunded fresh loop error stop (omega (arith, high)),
  )

  Loop-Applied :
      Fresh context.resources call.signature.result.element count v state step
      → Loop call 0 count context.scalar_kernel_invocations v f
      → Complete call 0 count context.scalar_kernel_invocations f
      → Applied context call count (finish_vector step.resources step.world f)
  Loop-Applied fresh loop (done, all, calls) =
      let type : f.vector.element_type ≡ v.element_type = rw loop.shape refl in
      (
        f.vector,
        finish_vector_complete step.resources step.world f done,
        cc (type, fresh.element_type),
        omega (arith, loop.size, fresh.size),
        (λ i low high. all i low (omega arith)),
        omega (arith, calls, finish_vector_calls step.resources step.world f),
      )

-- A lifted application on vectors has one of three results. The allocation of the result is refused,
-- with the primitive's name in the error and no call of a kernel. Or every element has a result, and
-- the vector of them is returned. Or the error is that of the first element without a result, the
-- kernel was called up to there, and the bytes in use are those from before the allocation.
pub apply_vector-cases :
    (context : PrimitiveApplicationContext) (call : Call) (count : ℕ)
    → let result = apply_vector context call count in
      Refused context call count result
      ⊎ (Applied context call count result ⊎ CutShort context call count result)
unfolding apply_vector
apply_vector-cases context call count =
    let step =
      allocate_vector context.host context.world context.resources call.signature.result.element
        count count call.location call.descriptor.name in
    elim (Outcome-cases step.outcome) [
      | inr (error, refusal) ↦
          inl (error, refusal, rw (refusal, apply_vector) refl, rw (refusal, apply_vector) refl)
      | inl (v, granted) ↦
          let allocated =
            allocate_vector-Fresh context.host context.world context.resources
              call.signature.result.element count count call.location call.descriptor.name v
              granted in
          let fresh = allocated.2 in
          let loop =
            fill_vector-Loop call count 0 v context.scalar_kernel_invocations fresh.element_type
              (omega (arith, fresh.size)) in
          rw (granted, apply_vector)
            (elim loop.ends [
              | inl complete ↦
                  inr (inl (Loop-Applied context call count v allocated.0 fresh loop complete))
              | inr stopped ↦ inr (
                  inr
                    (Loop-CutShort context call count v allocated.0 allocated.1 fresh loop stopped))
            ])
    ]
