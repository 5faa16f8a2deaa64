-- ===== src/Resources/Fresh.antt =====
-- The vector that `allocate_vector` of src/resources.cpp returns.
use bennu.Prelude.{
  ℕ, zero, suc, ◌+◌, ◌*◌, ◌/◌, ◌%◌, ◌^◌, ◌≡◌, ◌⊎◌, inl, inr, Bool-cases, true, false, Option, some,
  Bytes, length, ◌==◌, nat_eq, ltb, arith, refl, sym,
}
use mathlib.Core.Option.{some-injective}
use bennu.Scalar.Types.{ScalarType, ScalarValue, boolean, integer, double_precision}
use bennu.Scalar.Binary64.{is_canonical_double}
use bennu.Error.{SourceLocation, Outcome, success, Outcome-cases, HostAllocator}
use bennu.Primitive.Select.{size_max}
use bennu.Value.{VectorValue, empty_vector, element_width, element_identity}
use bennu.Resources.Types.{EvaluationResources, EvaluationResourceState}
use bennu.Resources.World.{
  World, Host, States, acquire_validated_resource_state, find_resource_state, update_state,
  retain_accounting_owner, retain_reference,
}
use bennu.Resources.Admission.{Request, preflight, Admission, request_of, commit_admission}
use bennu.Resources.Limits.{charge}
use bennu.Resources.Transaction.{
  Step, finish_resource_record_sync, begin_resource_record_sync, with_usage,
}
use bennu.Resources.Validate.{all_canonical}
use bennu.Resources.Work.{reserve_admitted}
use bennu.Resources.Vector.{
  allocate_vector, allocate_vector_locked, vector_reservation, full_vector, replicate, zero_element,
}
use bennu.Resources.Allocated.{in_transaction-success, reserve_admitted-success}
use bennu.Resources.Tracked.{Handed, reserve_buffer-Handed}
use bennu.Resources.Refund.{InUse, vector_binding}

length-replicate : (n : ℕ) (s : ScalarValue) → length (replicate n s) ≡ n
unfolding replicate
length-replicate zero s = refl
length-replicate (suc n) s = omega (arith, length-replicate n s)

zero_element-canonical : (t : ScalarType) → is_canonical_double (zero_element t).double_bits ≡ true
unfolding zero_element is_canonical_double
zero_element-canonical boolean = refl
zero_element-canonical integer = refl
zero_element-canonical double_precision = refl

replicate-canonical :
    (n : ℕ) (s : ScalarValue)
    → is_canonical_double s.double_bits ≡ true
    → all_canonical (replicate n s) ≡ true
unfolding replicate all_canonical
replicate-canonical zero s c = refl
replicate-canonical (suc n) s c = rw c (replicate-canonical n s c)

preflight-charge :
    (host : HostAllocator) (resources : EvaluationResources) (vector_bytes : Option ℕ)
    (live_charge work_charge : ℕ) (request : Request) {admission : Admission}
    → preflight host resources vector_bytes live_charge work_charge request ≡ success admission
    → admission ≡ charge resources live_charge work_charge
unfolding preflight
preflight-charge host resources vector_bytes live_charge work_charge request {admission} e =
    ground arith

abbrev retained_state : EvaluationResourceState → EvaluationResourceState
retained_state state = record state { reference_count = (state.reference_count + 1) % 2 ^ 64 }

retained-found :
    (states retained : States) (owner : ℕ) (state : EvaluationResourceState)
    → find_resource_state states owner ≡ some state
    → states owner ≡ some state
    → retain_accounting_owner states owner ≡ some retained
    → retained owner ≡ some (retained_state state)
unfolding retain_accounting_owner update_state retain_reference
retained-found states retained owner state found stored r =
    let same : retained ≡ update_state states owner retain_reference =
      sym (some-injective _ _ (rw (found, retain_accounting_owner) at r)) in
    rw same (ground (arith, stored))

-- What an acquired state shows of its owner.
acquired-parts :
    (states : States) (resources : EvaluationResources) (state : EvaluationResourceState)
    → acquire_validated_resource_state states resources ≡ some state
    → ((resources.owner == 0) ≡ false)
      × (find_resource_state states resources.owner ≡ some state)
      × (states resources.owner ≡ some state)
      × (state.context_active ≡ true)
      × ((resources.state_handle == resources.owner) ≡ true)
unfolding acquire_validated_resource_state find_resource_state
acquired-parts states resources state a =
    (ground (arith, a), ground (arith, a), ground (arith, a), ground (arith, a), ground (arith, a))

-- The state of an owner after its buffer is retained and its usage written back.
acquired-after :
    (states retained : States) (before after : EvaluationResources)
    (state : EvaluationResourceState)
    → acquire_validated_resource_state states before ≡ some state
    → retain_accounting_owner states before.owner ≡ some retained
    → after.owner ≡ before.owner
    → after.state_handle ≡ before.state_handle
    → acquire_validated_resource_state
        (update_state retained before.owner (λ s. some (with_usage after s)))
        after
      ≡ some (with_usage after (retained_state state))
unfolding acquire_validated_resource_state update_state find_resource_state
acquired-after states retained before after state a r o h =
    let parts = acquired-parts states before state a in
    let found = retained-found states retained before.owner state parts.1 parts.2 r in
    rw (o, h) (ground (arith, parts.0, parts.3, parts.4, found))

-- The two results of an allocation that is granted, in the context that it runs in.
abbrev Granted :
    EvaluationResources
    → World
    → ScalarType
    → ℕ
    → VectorValue
    → Step {0} (Outcome VectorValue)
    → Type 0
Granted resources world type count v step =
    (ltb (size_max / element_width type) count ≡ false)
    × (step.resources.owner ≡ resources.owner)
    × (step.resources.state_handle ≡ resources.state_handle)
    × (step.resources.live_evaluation_bytes
        ≡ resources.live_evaluation_bytes + count * element_width type)
    × (((count * element_width type ≡ 0) × (v ≡ empty_vector type))
        ⊎ ((payload : ℕ) × ((count * element_width type == 0) ≡ false)
            × (v ≡ full_vector type count resources.owner payload resources.reservation_ordinal)
            × Handed world (element_identity type) (count * element_width type)
                (vector_binding resources.owner (count * element_width type)
                  resources.reservation_ordinal)
                payload step.world))

reserve_vector-Granted :
    (host : Host) (resources : EvaluationResources) (world : World) (type : ScalarType)
    (count units : ℕ) (request : Request) (v : VectorValue)
    → ltb (size_max / element_width type) count ≡ false
    → let wanted = vector_reservation type count in
      let step =
        reserve_admitted host resources world
          (charge resources (count * element_width type) units)
          wanted
          request
          (empty_vector type)
          (full_vector type count resources.owner) in
      step.outcome ≡ success v → Granted resources world type count v step
unfolding vector_reservation commit_admission
reserve_vector-Granted host resources world type count units request v fits e =
    let wanted = vector_reservation type count in
    let bytes = count * element_width type in
    elim (reserve_admitted-success host resources world (charge resources bytes units) wanted
      request (empty_vector type) (full_vector type count resources.owner) e) [
        | inl (nothing, empty_e, same) ↦ rw same (fits, refl, refl, refl, inl (nothing, empty_e))
        | inr (payload, ordinal, something, granted, full_e, same) ↦
            let r =
              reserve_buffer-Handed host resources world wanted request payload ordinal granted in
            rw (same, r.1)
              (fits, refl, refl, refl, inr (payload, something, rw (← r.0) full_e, r.2))
      ]

-- An allocation that succeeds is a reservation of the vector's bytes.
allocate_vector_locked-success :
    (host : Host) (type : ScalarType) (count units : ℕ) (location : SourceLocation)
    (producer_name : Bytes) (resources : EvaluationResources) (world : World) (v : VectorValue)
    → (allocate_vector_locked host type count units location producer_name resources world).outcome
      ≡ success v
    → (ltb (size_max / element_width type) count ≡ false)
      × (allocate_vector_locked host type count units location producer_name resources world
          ≡ reserve_admitted host resources world
              (charge resources (count * element_width type) units)
              (vector_reservation type count)
              (request_of location producer_name (some count) (some (count * element_width type)))
              (empty_vector type)
              (full_vector type count resources.owner))
unfolding allocate_vector_locked
allocate_vector_locked-success host type count units location producer_name resources world v e =
    let bytes = count * element_width type in
    let request = request_of location producer_name (some count) (some bytes) in
    elim (Bool-cases (ltb size_max count)) [
      | inl large ↦ absurd (cc (rw (large, allocate_vector_locked) at e))
      | inr word ↦ elim (Bool-cases (ltb (size_max / element_width type) count)) [
        | inl wide ↦ absurd (cc (rw (word, wide, allocate_vector_locked) at e))
        | inr fits ↦
            elim (Outcome-cases (preflight host.names resources (some bytes) bytes units request)) [
              | inr (error, refusal) ↦
                  absurd (cc (rw (word, fits, refusal, allocate_vector_locked) at e))
              | inl (admission, admitted) ↦
                  let charged =
                    preflight-charge host.names resources (some bytes) bytes units request
                      admitted in
                  let granted : preflight host.names resources (some bytes) bytes units request
                      ≡ success (charge resources bytes units) =
                    cc (admitted, charged) in
                  (fits, rw (word, fits, granted, allocate_vector_locked) refl)
            ]
      ]
    ]

allocate_vector_locked-Granted :
    (host : Host) (type : ScalarType) (count units : ℕ) (location : SourceLocation)
    (producer_name : Bytes) (resources : EvaluationResources) (world : World) (v : VectorValue)
    → (allocate_vector_locked host type count units location producer_name resources world).outcome
      ≡ success v
    → Granted resources world type count v
        (allocate_vector_locked host type count units location producer_name resources world)
allocate_vector_locked-Granted host type count units location producer_name resources world v e =
    let s =
      allocate_vector_locked-success host type count units location producer_name resources world v
        e in
    let request =
      request_of location producer_name (some count) (some (count * element_width type)) in
    let g =
      reserve_vector-Granted host resources world type count units request v s.0 (rw s.1 at e) in
    rw s.1 g

-- A vector that an allocation gives: empty, or in use with its bytes charged to the context.
pub record Fresh (resources : EvaluationResources) (type : ScalarType) (count : ℕ) (v : VectorValue)
    (state : EvaluationResourceState) (step : Step {0} (Outcome VectorValue)) : Type 0 where
  pub element_type : v.element_type ≡ type
  pub size : length v.elements ≡ count
  pub charged :
      step.resources.live_evaluation_bytes
      ≡ state.live_evaluation_bytes + count * element_width type
  pub storage :
      ((count ≡ 0) × (v ≡ empty_vector type))
      ⊎ ((state' : EvaluationResourceState) × InUse step.world step.resources state' v
          × (v.canonical_bytes ≡ count * element_width type)
          × (state'.live_evaluation_bytes ≡ step.resources.live_evaluation_bytes))

no_bytes-no_count : (type : ScalarType) (count : ℕ) → count * element_width type ≡ 0 → count ≡ 0
unfolding element_width
no_bytes-no_count boolean count e = omega (arith, e)
no_bytes-no_count integer count e = omega (arith, e)
no_bytes-no_count double_precision count e = omega (arith, e)

full-InUse :
    (world : World) (resources : EvaluationResources) (state : EvaluationResourceState)
    (type : ScalarType) (count payload : ℕ) (body : Step {0} (Outcome VectorValue))
    → acquire_validated_resource_state world.states resources ≡ some state
    → let context = begin_resource_record_sync resources state in
      let bytes = count * element_width type in
      ltb (size_max / element_width type) count ≡ false
      → (bytes == 0) ≡ false
      → body.resources.owner ≡ resources.owner
      → body.resources.state_handle ≡ resources.state_handle
      → body.resources.live_evaluation_bytes ≡ state.live_evaluation_bytes + bytes
      → Handed world
          (element_identity type)
          bytes
          (vector_binding resources.owner bytes context.reservation_ordinal)
          payload
          body.world
      → InUse
          (finish_resource_record_sync resources.owner body).world
          body.resources
          (with_usage body.resources (retained_state state))
          (full_vector type count resources.owner payload context.reservation_ordinal)
unfolding full_vector finish_resource_record_sync begin_resource_record_sync
full-InUse world resources state type count payload body acquired fits filled o h live handed =
    record {
      buffer_record = handed.0;
      rest = world.registry;
      ordinal = state.reservation_ordinal;
      shape = handed.2;
      tracked = rw o handed.1;
      bytes = rw (length-replicate count (zero_element type)) refl;
      filled = filled;
      fits = rw (length-replicate count (zero_element type)) fits;
      active = refl;
      owner = sym o;
      numbered = refl;
      canonical = replicate-canonical count (zero_element type) (zero_element-canonical type);
      acquired =
          acquired-after world.states body.world.states resources body.resources state acquired
            handed.3 o h;
      enough = omega (arith, live);
    }

-- What is granted in a transaction is fresh after it.
Granted-Fresh :
    (world : World) (resources : EvaluationResources) (state : EvaluationResourceState)
    (type : ScalarType) (count : ℕ) (v : VectorValue) (body : Step {0} (Outcome VectorValue))
    → acquire_validated_resource_state world.states resources ≡ some state
    → Granted (begin_resource_record_sync resources state) world type count v body
    → Fresh resources type count v state (finish_resource_record_sync resources.owner body)
unfolding begin_resource_record_sync finish_resource_record_sync empty_vector full_vector
Granted-Fresh world resources state type count v body acquired
      (fits, o, h, live, inl (nothing, e)) =
    let none_left = no_bytes-no_count type count nothing in
    record {
      element_type = rw e refl;
      size = rw (e, none_left) refl;
      charged = live;
      storage = inl (none_left, e);
    }
Granted-Fresh world resources state type count v body acquired
      (fits, o, h, live, inr (payload, filled, e, handed)) =
    let use_of =
      full-InUse world resources state type count payload body acquired fits filled o h live
        handed in
    record {
      element_type = rw e refl;
      size = rw e (length-replicate count (zero_element type));
      charged = live;
      storage =
          inr (with_usage body.resources (retained_state state), rw e use_of, rw e refl, refl);
    }

-- A vector that is allocated has the type and the size asked for, and its bytes are charged.
pub allocate_vector-Fresh :
    (host : Host) (world : World) (resources : EvaluationResources) (type : ScalarType)
    (count units : ℕ) (location : SourceLocation) (producer_name : Bytes) (v : VectorValue)
    → let step = allocate_vector host world resources type count units location producer_name in
      step.outcome ≡ success v
      → (state : EvaluationResourceState) × (acquire_validated_resource_state world.states resources
          ≡ some state)
        × Fresh resources type count v state step
unfolding allocate_vector finish_resource_record_sync
allocate_vector-Fresh host world resources type count units location producer_name v e =
    let body = allocate_vector_locked host type count units location producer_name in
    let s = in_transaction-success host world resources location producer_name body e in
    let context = begin_resource_record_sync resources s.0 in
    let granted =
      allocate_vector_locked-Granted host type count units location producer_name context world v
        (rw s.2 at e) in
    (
      s.0,
      s.1,
      rw s.2 (Granted-Fresh world resources s.0 type count v (body context world) s.1 granted),
    )
