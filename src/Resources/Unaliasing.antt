-- ===== src/Resources/Unaliasing.antt =====
-- The addresses of the buffers in the operations of src/resources.cpp, under an allocator that hands
-- out free addresses.
use bennu.Prelude.{
  ℕ, ◌≡◌, inl, inr, Bool-cases, Option-cases, false, not, ◌&&◌, none, some, Bytes, ◌==◌, nat_eq,
  ltb, ◌*◌, ◌/◌, arith,
}
use bennu.Scalar.Types.{ScalarType}
use bennu.Error.{SourceLocation, Outcome, Outcome-cases}
use bennu.Primitive.Select.{size_max}
use bennu.HostStorage.Registry.{
  Registry, bind_semantic_host_buffer, buffer, consume_semantic_host_buffer, vector_payload,
}
use bennu.HostStorage.Aliasing.{Unaliased, holds_buffer}
use bennu.HostStorage.Fresh.{
  register-Unaliased, bind-Unaliased, remove_host_allocation-Unaliased, consume-Unaliased,
}
use bennu.Value.{
  element_width, Value, VectorValue, scalar_value, vector_value, element_identity, is_valid,
}
use bennu.Resources.Types.{EvaluationResources}
use bennu.Resources.World.{
  World, Host, Binding, allocated, payload_address, buffer_record, allocate_host_buffer,
  release_host_buffer, allocate_tracked_host_buffer, retain_accounting_owner,
  acquire_validated_resource_state, release_accounting_owner,
}
use bennu.Resources.Admission.{Request, preflight, Admission, request_of}
use bennu.Resources.Transaction.{
  Step, in_transaction, with_valid_profile, finish_resource_record_sync, begin_resource_record_sync,
}
use bennu.Resources.Admission.{validate_profile_configuration_locked}
use bennu.Resources.Work.{
  Reservation, reserve_buffer, reserve_admitted, injected, binding_of, charge_work,
  charge_work_locked,
}
use bennu.Resources.Vector.{allocate_vector, allocate_vector_locked, vector_reservation}
use bennu.Resources.Validate.{validate_vector}
use bennu.Resources.Release.{
  release_vector_reservation, release_vector, release_vector_locked, finish_release,
  physical_release,
}
use bennu.Resources.VectorReleases.{physical_release-null, physical_release-held}
use bennu.Resources.Buffers.{allocate_host_buffer-cases, Allocated-cases}

-- The allocator never hands out the address of a buffer that is still registered.
unfoldable pub HandsOutFree : Host → Type 0
HandsOutFree host =
    (registry : Registry) (bytes address : ℕ)
    → host.malloc registry bytes ≡ some address
    → holds_buffer registry (payload_address host address) ≡ false

allocate_host_buffer-Unaliased :
    (host : Host) (registry : Registry) (width element_type element_count payload : ℕ)
    (registry' : Registry)
    → HandsOutFree host
    → Unaliased registry
    → allocate_host_buffer host registry width element_type element_count
      ≡ allocated payload registry'
    → Unaliased registry'
unfolding HandsOutFree
allocate_host_buffer-Unaliased host registry width element_type element_count payload registry' free
      u e =
    elim (allocate_host_buffer-cases host registry width element_type element_count payload
      registry' e) [
        | inl (z, same) ↦ rw same u
        | inr (address, p, registered, memory) ↦
            register-Unaliased registry
              (buffer_record host address width element_type element_count)
              (free registry _ address memory) u registered
      ]

release_host_buffer-Unaliased :
    (world : World) (payload element_type : ℕ)
    → Unaliased world.registry
    → Unaliased (release_host_buffer world payload element_type).registry
unfolding release_host_buffer
release_host_buffer-Unaliased world payload element_type u =
    remove_host_allocation-Unaliased world.registry payload buffer element_type u

allocate_tracked-Unaliased :
    (host : Host) (world : World) (width element_type element_count : ℕ) (binding : Binding)
    → HandsOutFree host
    → Unaliased world.registry
    → Unaliased
        (allocate_tracked_host_buffer host world width element_type element_count
          binding).0.registry
unfolding allocate_tracked_host_buffer
allocate_tracked-Unaliased host world width element_type element_count binding free u =
    elim (Allocated-cases
      (allocate_host_buffer host world.registry width element_type element_count)) [
        | inl (reason, re) ↦ rw (re, allocate_tracked_host_buffer) u
        | inr (payload, registry, e) ↦
            let u' =
              allocate_host_buffer-Unaliased host world.registry width element_type element_count
                payload registry free u e in
            elim (Option-cases (retain_accounting_owner world.states binding.owner)) [
              | inl gone ↦
                  rw (e, gone, allocate_tracked_host_buffer)
                    (release_host_buffer-Unaliased (record world { registry = registry }) payload
                      element_type u')
              | inr (retained, re) ↦
                  elim (Option-cases (
                    bind_semantic_host_buffer registry payload element_type binding.owner
                      binding.canonical_bytes binding.ordinal binding.purpose)) [
                        | inl unbound ↦
                            rw (e, re, unbound, allocate_tracked_host_buffer)
                              (release_host_buffer-Unaliased
                                (record {
                                  states = release_accounting_owner retained binding.owner;
                                  registry = registry;
                                })
                                payload element_type u')
                        | inr (bound, be) ↦
                            rw (e, re, be, allocate_tracked_host_buffer)
                              (bind-Unaliased registry payload element_type binding.owner
                                binding.canonical_bytes binding.ordinal binding.purpose bound u' be)
                      ]
            ]
      ]

reserve_buffer-Unaliased :
    (host : Host) (resources : EvaluationResources) (world : World) (wanted : Reservation)
    (request : Request)
    → HandsOutFree host
    → Unaliased world.registry
    → Unaliased (reserve_buffer host resources world wanted request).world.registry
unfolding reserve_buffer
reserve_buffer-Unaliased host resources world wanted request free u =
    elim (Bool-cases (resources.reservation_ordinal == size_max)) [
      | inl exhausted ↦ rw (exhausted, reserve_buffer) u
      | inr left ↦
          elim (Bool-cases
            (injected resources.fail_at_reservation_ordinal resources.reservation_ordinal)) [
              | inl fails ↦ rw (left, fails, reserve_buffer) u
              | inr goes ↦
                  rw (left, goes, reserve_buffer)
                    (allocate_tracked-Unaliased host world wanted.width wanted.element_type
                      wanted.element_count (binding_of resources wanted) free u)
            ]
    ]

reserve_admitted-Unaliased {ℓ} :
    {A : Type ℓ} (host : Host) (resources : EvaluationResources) (world : World)
    (admission : Admission) (wanted : Reservation) (request : Request) (empty : A)
    (full : ℕ → ℕ → A)
    → HandsOutFree host
    → Unaliased world.registry
    → Unaliased
        (reserve_admitted host resources world admission wanted request empty full).world.registry
unfolding reserve_admitted
reserve_admitted-Unaliased host resources world admission wanted request empty full free u =
    let reserved = reserve_buffer-Unaliased host resources world wanted request free u in
    elim (Bool-cases (wanted.live_charge == 0)) [
      | inl nothing ↦ rw (nothing, reserve_admitted) u
      | inr something ↦
          elim (Outcome-cases (reserve_buffer host resources world wanted request).outcome) [
            | inr (error, refusal) ↦ rw (something, refusal, reserve_admitted) reserved
            | inl (place, granted) ↦ rw (something, granted, reserve_admitted) reserved
          ]
    ]

in_transaction-Unaliased {ℓ} :
    {A : Type ℓ} (host : Host) (world : World) (resources : EvaluationResources)
    (location : SourceLocation) (producer_name : Bytes)
    (body : EvaluationResources → World → Step (Outcome A))
    → Unaliased world.registry
    → ((synced : EvaluationResources) → Unaliased (body synced world).world.registry)
    → Unaliased (in_transaction host world resources location producer_name body).world.registry
unfolding in_transaction with_valid_profile validate_profile_configuration_locked
    finish_resource_record_sync
in_transaction-Unaliased host world resources location producer_name body u keeps =
    elim (Option-cases (acquire_validated_resource_state world.states resources)) [
      | inl gone ↦ rw (gone, in_transaction) u
      | inr (state, acquired) ↦
          let synced = begin_resource_record_sync resources state in
          elim (Option-cases (
            validate_profile_configuration_locked host.names synced (some state) location
              producer_name)) [
                | inl valid ↦
                    rw (acquired, valid, in_transaction, with_valid_profile) (keeps synced)
                | inr (error, refusal) ↦
                    rw (acquired, refusal, in_transaction, with_valid_profile) u
              ]
    ]

allocate_vector_locked-Unaliased :
    (host : Host) (element_type : ScalarType) (count units : ℕ) (location : SourceLocation)
    (producer_name : Bytes) (resources : EvaluationResources) (world : World)
    → HandsOutFree host
    → Unaliased world.registry
    → Unaliased
        (allocate_vector_locked host element_type count units location producer_name resources
          world).world.registry
unfolding allocate_vector_locked
allocate_vector_locked-Unaliased host element_type count units location producer_name resources
      world free u =
    let bytes = count * element_width element_type in
    let request = request_of location producer_name (some count) (some bytes) in
    elim (Bool-cases (ltb size_max count)) [
      | inl large ↦ rw (large, allocate_vector_locked) u
      | inr word ↦ elim (Bool-cases (ltb (size_max / element_width element_type) count)) [
        | inl wide ↦ rw (word, wide, allocate_vector_locked) u
        | inr fits ↦
            elim (Outcome-cases (preflight host.names resources (some bytes) bytes units request)) [
              | inr (error, refusal) ↦ rw (word, fits, refusal, allocate_vector_locked) u
              | inl (admission, admitted) ↦
                  rw (word, fits, admitted, allocate_vector_locked)
                    (reserve_admitted-Unaliased host resources world admission
                      (vector_reservation element_type count) request _ _ free u)
            ]
      ]
    ]

pub allocate_vector-Unaliased :
    (host : Host) (world : World) (resources : EvaluationResources) (element_type : ScalarType)
    (count units : ℕ) (location : SourceLocation) (producer_name : Bytes)
    → HandsOutFree host
    → Unaliased world.registry
    → Unaliased
        (allocate_vector host world resources element_type count units location
          producer_name).world.registry
unfolding allocate_vector
allocate_vector-Unaliased host world resources element_type count units location producer_name free
      u =
    in_transaction-Unaliased host world resources location producer_name
      (allocate_vector_locked host element_type count units location producer_name) u
      (λ synced.
        allocate_vector_locked-Unaliased host element_type count units location producer_name synced
          world free u)

charge_work_locked-Unaliased :
    (host : Host) (units : ℕ) (location : SourceLocation) (producer_name : Bytes)
    (resources : EvaluationResources) (world : World)
    → Unaliased world.registry
    → Unaliased
        (charge_work_locked host units location producer_name resources world).world.registry
unfolding charge_work_locked
charge_work_locked-Unaliased host units location producer_name resources world u =
    elim (Outcome-cases
      (preflight host.names resources none 0 units (request_of location producer_name none none))) [
        | inr (error, refusal) ↦ rw (refusal, charge_work_locked) u
        | inl (admission, admitted) ↦ rw (admitted, charge_work_locked) u
      ]

pub charge_work-Unaliased :
    (host : Host) (world : World) (resources : EvaluationResources) (units : ℕ)
    (location : SourceLocation) (producer_name : Bytes)
    → Unaliased world.registry
    → Unaliased (charge_work host world resources units location producer_name).world.registry
unfolding charge_work
charge_work-Unaliased host world resources units location producer_name u =
    in_transaction-Unaliased host world resources location producer_name
      (charge_work_locked host units location producer_name) u
      (λ synced. charge_work_locked-Unaliased host units location producer_name synced world u)

physical_release-Unaliased :
    (world : World) (v : VectorValue)
    → Unaliased world.registry
    → Unaliased (physical_release world v).registry
physical_release-Unaliased world v u = elim (Bool-cases (v.storage == 0)) [
  | inl null ↦ rw (physical_release-null world v (ground (arith, null))) u
  | inr held ↦
      rw (physical_release-held world v held)
        (release_host_buffer-Unaliased world v.storage (element_identity v.element_type) u)
]

finish_release-Unaliased :
    (resources : EvaluationResources) (world : World) (v : VectorValue)
    → Unaliased world.registry
    → Unaliased (finish_release resources world v).world.registry
unfolding finish_release
finish_release-Unaliased resources world v u =
    physical_release-Unaliased
      (record world { states = release_accounting_owner world.states v.accounting_owner }) v u

release_vector_locked-Unaliased :
    (resources : EvaluationResources) (world : World) (v : VectorValue)
    → Unaliased world.registry
    → Unaliased (release_vector_locked resources world v).world.registry
unfolding release_vector_locked
release_vector_locked-Unaliased resources world v u = elim (Bool-cases (v.canonical_bytes == 0)) [
  | inl empty ↦ rw (empty, release_vector_locked) (finish_release-Unaliased resources world v u)
  | inr filled ↦
      elim (Option-cases (
        consume_semantic_host_buffer world.registry v.storage v.accounting_owner v.canonical_bytes
          v.allocation_ordinal vector_payload)) [
            | inl unbound ↦ rw (filled, unbound, release_vector_locked) u
            | inr (registry, consumed) ↦
                rw (filled, consumed, release_vector_locked)
                  (finish_release-Unaliased resources (record world { registry = registry }) v
                    (consume-Unaliased world.registry v.storage v.accounting_owner v.canonical_bytes
                      v.allocation_ordinal vector_payload registry u consumed))
          ]
]

release_vector-Unaliased :
    (world : World) (resources : EvaluationResources) (v : VectorValue)
    → Unaliased world.registry
    → Unaliased (release_vector world resources v).world.registry
unfolding release_vector finish_resource_record_sync
release_vector-Unaliased world resources v u =
    elim (Bool-cases (v.accounting_active && not (v.accounting_owner == resources.owner))) [
      | inl other ↦ rw (other, release_vector) u
      | inr own ↦ elim (Option-cases (acquire_validated_resource_state world.states resources)) [
        | inl gone ↦ rw (own, gone, release_vector) u
        | inr (state, acquired) ↦
            rw (own, acquired, release_vector)
              (release_vector_locked-Unaliased (begin_resource_record_sync resources state) world v
                u)
      ]
    ]

pub release_vector_reservation-Unaliased :
    (world : World) (resources : EvaluationResources) (value : Value)
    → Unaliased world.registry
    → Unaliased (release_vector_reservation world resources value).world.registry
unfolding release_vector_reservation
release_vector_reservation-Unaliased world resources (scalar_value s) u = u
release_vector_reservation-Unaliased world resources (vector_value v) u =
    elim (Bool-cases (is_valid (validate_vector world v))) [
      | inl valid ↦
          rw (valid, release_vector_reservation) (release_vector-Unaliased world resources v u)
      | inr violated ↦ rw (violated, release_vector_reservation) u
    ]
