-- ===== src/Resources/Refund.antt =====
-- The release of a vector in use: `release_vector_reservation` of src/resources.cpp.
use bennu.Prelude.{
  ℕ, ◌-◌, ◌*◌, ◌/◌, ◌≤◌, ◌≡◌, true, false, not, some, ◌∷◌, length, ltb, ◌==◌, ◌&&◌, nat_eq, bool_eq,
  arith, refl,
}
use bennu.Primitive.Select.{size_max}
use bennu.HostStorage.Registry.{
  purpose_eq, semantic_eq, Registry, HostAllocationRecord, vector_payload,
  semantic_host_buffer_matches, consume_semantic_host_buffer,
}
use bennu.Value.{VectorValue, vector_value, element_width, element_identity, no_violation}
use bennu.Resources.Types.{EvaluationResources, EvaluationResourceState}
use bennu.Resources.World.{World, Binding, acquire_validated_resource_state, find_resource_state}
use bennu.Resources.Transaction.{begin_resource_record_sync}
use bennu.Resources.Validate.{
  validate_vector, accounting_valid, host_buffer_valid, all_canonical, resource_state_owner_is_live,
}
use bennu.Resources.Release.{
  released, release_vector_reservation, release_vector, release_vector_locked, finish_release,
  logical_bytes,
}
use bennu.Resources.Tracked.{Tracked}

abbrev pub vector_binding : ℕ → ℕ → ℕ → Binding
vector_binding owner bytes ordinal = record {
  owner = owner;
  canonical_bytes = bytes;
  ordinal = ordinal;
  purpose = vector_payload;
}

-- A vector of a context that is in use, with its buffer at the head of the registry.
pub record InUse (world : World) (resources : EvaluationResources) (state : EvaluationResourceState)
    (v : VectorValue) : Type 0 where
  pub buffer_record : HostAllocationRecord
  pub rest : Registry
  pub ordinal : ℕ
  pub shape : world.registry ≡ buffer_record ∷ rest
  pub tracked :
      Tracked buffer_record v.storage
        (element_identity v.element_type)
        v.canonical_bytes
        (vector_binding resources.owner v.canonical_bytes ordinal)
  pub bytes : v.canonical_bytes ≡ length v.elements * element_width v.element_type
  pub filled : (v.canonical_bytes == 0) ≡ false
  pub fits : ltb (size_max / element_width v.element_type) (length v.elements) ≡ false
  pub active : v.accounting_active ≡ true
  pub owner : v.accounting_owner ≡ resources.owner
  pub numbered : v.allocation_ordinal ≡ some ordinal
  pub canonical : all_canonical v.elements ≡ true
  pub acquired : acquire_validated_resource_state world.states resources ≡ some state
  pub enough : v.canonical_bytes ≤ state.live_evaluation_bytes

matches-newest :
    (r : HostAllocationRecord) (rest : Registry)
    (payload element_type bytes owner canonical ordinal : ℕ)
    → Tracked r payload element_type bytes (vector_binding owner canonical ordinal)
    → semantic_host_buffer_matches (r ∷ rest) payload owner canonical (some ordinal) vector_payload
      ≡ true
unfolding semantic_host_buffer_matches
matches-newest r rest payload element_type bytes owner canonical ordinal t =
    ground (arith, t.address, t.is_buffer, t.stored, t.owned, t.bound)

consume-newest :
    (r : HostAllocationRecord) (rest : Registry)
    (payload element_type bytes owner canonical ordinal : ℕ)
    → Tracked r payload element_type bytes (vector_binding owner canonical ordinal)
    → (registry : Registry) × (consume_semantic_host_buffer
          (r ∷ rest)
          payload
          owner
          canonical
          (some ordinal)
          vector_payload
        ≡ some registry)
unfolding consume_semantic_host_buffer
consume-newest r rest payload element_type bytes owner canonical ordinal t = (
  record r { semantic = record r.semantic { active = false } } ∷ rest,
  ground (arith, t.address, t.is_buffer, t.stored, t.owned, t.bound),
)

acquired-owner :
    (world : World) (resources : EvaluationResources) (state : EvaluationResourceState)
    → acquire_validated_resource_state world.states resources ≡ some state
    → find_resource_state world.states resources.owner ≡ some state
unfolding acquire_validated_resource_state
acquired-owner world resources state e = ground (arith, e)

module _ (world : World) (resources : EvaluationResources) (state : EvaluationResourceState)
    (v : VectorValue) (u : InUse world resources state v) where
  InUse-counted : (length v.elements == 0) ≡ false
  InUse-counted = ground (arith, u.bytes, u.filled)

  InUse-host_buffer :
      host_buffer_valid world.registry v.storage
        (element_identity v.element_type)
        (length v.elements * element_width v.element_type)
      ≡ true
  unfolding host_buffer_valid
  InUse-host_buffer =
      let t = u.tracked in
      rw (u.shape, host_buffer_valid)
        (ground (arith, t.address, t.is_buffer, t.type, t.stored, t.typed, t.size, u.bytes))

  InUse-matches :
      semantic_host_buffer_matches world.registry v.storage v.accounting_owner
        (length v.elements * element_width v.element_type)
        v.allocation_ordinal
        vector_payload
      ≡ true
  InUse-matches =
      rw (u.shape, u.owner, u.numbered, ← u.bytes)
        (matches-newest u.buffer_record u.rest v.storage (element_identity v.element_type)
          v.canonical_bytes resources.owner v.canonical_bytes u.ordinal u.tracked)

  InUse-owner_live : resource_state_owner_is_live world.states v.accounting_owner ≡ true
  unfolding resource_state_owner_is_live
  InUse-owner_live =
      rw (u.owner, acquired-owner world resources state u.acquired, resource_state_owner_is_live)
        refl

  InUse-accounting_valid : accounting_valid world v ≡ true
  unfolding accounting_valid
  InUse-accounting_valid = ground (
    arith, InUse-counted, InUse-matches, InUse-owner_live, u.bytes, u.filled, u.fits, u.active,
    u.owner, u.numbered, u.tracked.owned,
  )

  InUse-valid : validate_vector world v ≡ no_violation
  unfolding validate_vector
  InUse-valid = ground (
    arith, InUse-counted, InUse-host_buffer, InUse-accounting_valid, u.fits, u.canonical,
    u.tracked.stored,
  )

  InUse-logical_bytes :
      logical_bytes (begin_resource_record_sync resources state) v ≡ v.canonical_bytes
  unfolding logical_bytes begin_resource_record_sync
  InUse-logical_bytes = ground (arith, u.bytes, u.fits, u.active, u.owner, u.enough)

  -- A vector in use is released, and its bytes are given back to its context.
  pub release-InUse :
      let step = release_vector_reservation world resources (vector_value v) in
      (step.outcome.0 ≡ released)
      × (step.resources.live_evaluation_bytes ≡ state.live_evaluation_bytes - v.canonical_bytes)
  unfolding release_vector_reservation release_vector release_vector_locked finish_release
  release-InUse =
      let own : (v.accounting_active && not (v.accounting_owner == resources.owner)) ≡ false =
        ground (arith, u.owner) in
      let consumed : (registry : Registry) × (consume_semantic_host_buffer world.registry v.storage
              v.accounting_owner v.canonical_bytes v.allocation_ordinal vector_payload
            ≡ some registry) =
        rw (u.shape, u.owner, u.numbered)
          (consume-newest u.buffer_record u.rest v.storage (element_identity v.element_type)
            v.canonical_bytes resources.owner v.canonical_bytes u.ordinal u.tracked) in
      rw
        (
          InUse-valid, own, u.acquired, u.filled, consumed.1, InUse-logical_bytes,
          release_vector_reservation, release_vector, release_vector_locked, finish_release,
        )
        (refl, refl)
