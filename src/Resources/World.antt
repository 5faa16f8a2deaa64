-- ===== src/Resources/World.antt =====
-- The owners of src/resources.cpp: the registry of their states, which counts references, and the
-- host buffers that are bound to an owner. Tokens are issued once, so the hash table is a map from
-- a token to a state. Operations run one at a time; the pin of a state, an increment of its count
-- that the same operation undoes, is left out.
use bennu.Prelude.{
  ℕ, ◌+◌, ◌-◌, ◌*◌, ◌/◌, ◌%◌, ◌^◌, ◌||◌, Option, none, some, leb, ltb, not, if◌then◌else◌, ◌==◌,
  nat_eq,
}
use bennu.Primitive.Select.{size_max}
use bennu.Error.{HostAllocator}
use bennu.HostStorage.Registry.{
  HostResourceErrorReason, size_overflow, allocation_unavailable, Registry, HostAllocationRecord,
  buffer, SemanticPurpose, no_semantic, register_host_allocation, remove_host_allocation, abandoned,
  bind_semantic_host_buffer,
}
use bennu.Resources.Types.{EvaluationResourceState, EvaluationResources}

abbrev pub States : Type 0
States = ℕ → Option EvaluationResourceState

pub record World : Type 0 where
  pub states : States
  pub registry : Registry

-- The allocator of the host, and the layout of an allocation, which the compiler fixes.
pub record Host : Type 0 where
  pub names : HostAllocator
  pub malloc : Registry → ℕ → Option ℕ
  pub header_size : ℕ
  pub header_alignment : ℕ

unfoldable pub find_resource_state : States → ℕ → Option EvaluationResourceState
find_resource_state states token = if token == 0 then none else states token

-- A change of the state of an owner, if it has one.
unfoldable pub update_state :
    States → ℕ → (EvaluationResourceState → Option EvaluationResourceState) → States
update_state states token change other =
    if other == token
    then elim (states other) [ none ↦ none | some state ↦ change state ]
    else states other

unfoldable pub acquire_validated_resource_state :
    States → EvaluationResources → Option EvaluationResourceState
unfolding find_resource_state
acquire_validated_resource_state states resources =
    elim (find_resource_state states resources.owner) [
      | none ↦ none
      | some state ↦
          if not state.context_active || not (resources.state_handle == resources.owner)
          then none
          else some state
    ]

unfoldable pub retain_reference : EvaluationResourceState → Option EvaluationResourceState
retain_reference state =
    some (record state { reference_count = (state.reference_count + 1) % 2 ^ 64 })

unfoldable pub retain_accounting_owner : States → ℕ → Option States
unfolding find_resource_state update_state retain_reference
retain_accounting_owner states owner = elim (find_resource_state states owner) [
  | none ↦ none
  | some state ↦ some (update_state states owner retain_reference)
]

-- The count without one reference: the state is destroyed at 0.
unfoldable pub release_reference : EvaluationResourceState → Option EvaluationResourceState
release_reference state =
    if state.reference_count == 1
    then none
    else some (record state {
      reference_count = if state.reference_count == 0 then size_max else state.reference_count - 1;
    })

unfoldable pub release_accounting_owner : States → ℕ → States
unfolding find_resource_state update_state release_reference
release_accounting_owner states owner = elim (find_resource_state states owner) [
  | none ↦ states
  | some state ↦ update_state states owner release_reference
]

unfoldable pub release_abandoned_semantic_allocation : States → ℕ → ℕ → States
unfolding update_state release_accounting_owner
release_abandoned_semantic_allocation states owner canonical_bytes =
    let refunded =
      if owner == 0
      then states
      else update_state states owner (λ s. some (
          if leb canonical_bytes s.live_evaluation_bytes
          then record s { live_evaluation_bytes = s.live_evaluation_bytes - canonical_bytes }
          else s)) in
    release_accounting_owner refunded owner

-- A buffer that an owner still counts is given back to it.
unfoldable pub release_host_buffer : World → ℕ → ℕ → World
unfolding remove_host_allocation abandoned release_abandoned_semantic_allocation
release_host_buffer world payload element_type =
    let removal = remove_host_allocation world.registry payload buffer element_type in
    record {
      registry = removal.registry;
      states = elim removal.removed [
        | none ↦ world.states
        | some r ↦ elim (abandoned r) [
          | none ↦ world.states
          | some (owner, bytes) ↦ release_abandoned_semantic_allocation world.states owner bytes
        ]
      ];
    }

pub data Allocated (A : Type 0) : Type 0 where
  allocated : ℕ → A → Allocated A
  refused : HostResourceErrorReason → Allocated A

abbrev pub align : ℕ → ℕ → ℕ
align address alignment = ((address + (alignment - 1)) / alignment) * alignment

abbrev pub payload_address : Host → ℕ → ℕ
payload_address host address = align (address + host.header_size) host.header_alignment

abbrev pub buffer_record : Host → ℕ → ℕ → ℕ → ℕ → HostAllocationRecord
buffer_record host address width element_type element_count = record {
  allocation = address;
  payload = payload_address host address;
  byte_count = element_count * width;
  purpose = buffer;
  element_type = element_type;
  constructed = 0;
  capacity = 0;
  semantic = no_semantic;
}

unfoldable pub allocate_host_buffer : Host → Registry → ℕ → ℕ → ℕ → Allocated Registry
unfolding register_host_allocation
allocate_host_buffer host registry width element_type element_count =
    let slack = host.header_alignment - 1 in
    if element_count == 0
    then allocated 0 registry
    else if ltb ((size_max - host.header_size - slack) / width) element_count
    then refused size_overflow
    else elim (host.malloc registry (host.header_size + slack + element_count * width)) [
      | none ↦ refused allocation_unavailable
      | some address ↦
          elim (register_host_allocation registry
            (buffer_record host address width element_type element_count)) [
              | none ↦ refused allocation_unavailable
              | some registry' ↦ allocated (payload_address host address) registry'
            ]
    ]

-- What a buffer is bound to.
pub record Binding : Type 0 where
  pub owner : ℕ
  pub canonical_bytes : ℕ
  pub ordinal : ℕ
  pub purpose : SemanticPurpose

-- The result with the world, which a refusal leaves as the releases leave it.
unfoldable pub allocate_tracked_host_buffer :
    Host → World → ℕ → ℕ → ℕ → Binding → World × Allocated Unit
unfolding allocate_host_buffer retain_accounting_owner bind_semantic_host_buffer
    release_accounting_owner release_host_buffer
allocate_tracked_host_buffer host world width element_type element_count binding =
    elim (allocate_host_buffer host world.registry width element_type element_count) [
      | refused reason ↦ (world, refused reason)
      | allocated payload registry ↦
          let stored = record world { registry = registry } in
          elim (retain_accounting_owner world.states binding.owner) [
            | none ↦
                (release_host_buffer stored payload element_type, refused allocation_unavailable)
            | some retained ↦
                elim (bind_semantic_host_buffer registry payload element_type binding.owner
                  binding.canonical_bytes binding.ordinal binding.purpose) [
                    | none ↦
                        let released = release_accounting_owner retained binding.owner in
                        (
                          release_host_buffer (record stored { states = released }) payload
                              element_type,
                          refused allocation_unavailable,
                        )
                    | some bound ↦
                        (record { states = retained; registry = bound }, allocated payload tt)
                  ]
          ]
    ]
