-- ===== src/Resources/Buffers.antt =====
-- The bytes in use and the buffers that src/resources.cpp allocates for an owner.
use bennu.Prelude.{
  ℕ, ◌+◌, ◌-◌, ◌*◌, ◌/◌, ◌≡◌, ◌≢◌, ◌⊎◌, inl, inr, false, none, some, Option-cases, Bool-cases, ◌==◌,
  nat_eq, arith, refl, ap, ◌∷◌, ltb,
}
use bennu.HostStorage.Registry.{
  HostResourceErrorReason, purpose_eq, Registry, HostAllocationRecord, SemanticPurpose, buffer,
  register_host_allocation, bind_semantic_host_buffer, bind_in, no_semantic, remove_host_allocation,
}
use bennu.HostStorage.Accounts.{active_bytes, register-active_bytes, bind-active_bytes}
use bennu.Resources.Types.{EvaluationResourceState}
use bennu.Primitive.Select.{size_max}
use bennu.Resources.World.{
  payload_address, buffer_record, World, Host, States, Allocated, allocated, refused, Binding,
  allocate_host_buffer, allocate_tracked_host_buffer, find_resource_state, release_host_buffer,
  retain_accounting_owner, release_accounting_owner, update_state, retain_reference,
}
use bennu.Resources.Sound.{
  Moves, refl-KeptStates, trans-KeptStates, retain_accounting_owner-KeptStates,
  release_accounting_owner-KeptStates,
}

bind-registered :
    (registry : Registry) (r : HostAllocationRecord) (registry' : Registry)
    (owner bytes ordinal : ℕ) (purpose : SemanticPurpose)
    → register_host_allocation registry r ≡ some registry'
    → r.purpose ≡ buffer
    → (owner == 0) ≡ false
    → bind_semantic_host_buffer registry' r.payload r.element_type owner bytes ordinal purpose
      ≢ none
unfolding register_host_allocation bind_semantic_host_buffer bind_in
bind-registered registry r registry' owner bytes ordinal purpose e b o n =
    let shape : registry' ≡ record r { semantic = no_semantic } ∷ registry = ground (arith, e) in
    ground (arith, e, b, o, (rw (shape, bind_semantic_host_buffer, bind_in) at n))

-- What `allocate_host_buffer` does to the registry.
pub allocate_host_buffer-cases :
    (host : Host) (registry : Registry) (width element_type element_count payload : ℕ)
    (registry' : Registry)
    → allocate_host_buffer host registry width element_type element_count
      ≡ allocated payload registry'
    → ((payload ≡ 0) × (registry' ≡ registry))
      ⊎ ((address : ℕ) × (payload ≡ payload_address host address)
          × (register_host_allocation registry
                (buffer_record host address width element_type element_count)
              ≡ some registry')
          × (host.malloc registry
                (host.header_size + (host.header_alignment - 1) + element_count * width)
              ≡ some address))
unfolding allocate_host_buffer
allocate_host_buffer-cases host registry width element_type element_count payload registry' e =
    let slack = host.header_alignment - 1 in
    elim (Bool-cases (element_count == 0)) [
      | inl zero_e ↦ inl (ground (arith, e, zero_e), ground (arith, e, zero_e))
      | inr some_e ↦
          elim (Bool-cases (ltb ((size_max - host.header_size - slack) / width) element_count)) [
            | inl large ↦ absurd (ground (arith, e, some_e, large))
            | inr fits ↦
                elim (Option-cases
                  (host.malloc registry (host.header_size + slack + element_count * width))) [
                    | inl no_memory ↦
                        absurd (
                          ground (arith, (rw (some_e, fits, no_memory, allocate_host_buffer) at e)))
                    | inr (address, memory) ↦
                        let e' = (rw (some_e, fits, memory, allocate_host_buffer) at e) in
                        elim (Option-cases (
                          register_host_allocation registry
                            (buffer_record host address width element_type element_count))) [
                              | inl taken ↦ absurd (ground (arith, (rw taken at e')))
                              | inr (registered, free) ↦
                                  let e'' = (rw free at e') in
                                  inr (
                                    address,
                                    ground (arith, e''),
                                    ground (arith, free, e''),
                                    memory,
                                  )
                            ]
                  ]
          ]
    ]

pub Allocated-cases :
    {A : Type 0} (o : Allocated A)
    → ((reason : HostResourceErrorReason) × (o ≡ refused reason))
      ⊎ ((payload : ℕ) × (a : A) × (o ≡ allocated payload a))
Allocated-cases (refused reason) = inl (reason, refl)
Allocated-cases (allocated payload a) = inr (payload, a, refl)

abbrev pub gained : Allocated (Unit {0}) → ℕ → ℕ
gained (refused reason) bytes = 0
gained (allocated payload u) bytes = bytes

allocate_host_buffer-active_bytes :
    (host : Host) (registry : Registry) (width element_type element_count payload : ℕ)
    (registry' : Registry) (token : ℕ)
    → allocate_host_buffer host registry width element_type element_count
      ≡ allocated payload registry'
    → active_bytes token registry' ≡ active_bytes token registry
allocate_host_buffer-active_bytes host registry width element_type element_count payload registry'
      token e =
    elim (allocate_host_buffer-cases host registry width element_type element_count payload
      registry' e) [
        | inl (z, same) ↦ ap (active_bytes token) same
        | inr (address, p, registered, memory) ↦ register-active_bytes registry _ token registered
      ]

bind-null :
    (host : Host) (registry : Registry) (width element_type element_count payload : ℕ)
    (registry' : Registry) (owner bytes ordinal : ℕ) (purpose : SemanticPurpose)
    → allocate_host_buffer host registry width element_type element_count
      ≡ allocated payload registry'
    → (owner == 0) ≡ false
    → bind_semantic_host_buffer registry' payload element_type owner bytes ordinal purpose ≡ none
    → payload ≡ 0
bind-null host registry width element_type element_count payload registry' owner bytes ordinal
      purpose e o n =
    elim (allocate_host_buffer-cases host registry width element_type element_count payload
      registry' e) [
        | inl (z, same) ↦ z
        | inr (address, p, registered, memory) ↦ absurd (
            bind-registered registry (buffer_record host address width element_type element_count)
              registry' owner bytes ordinal purpose registered refl o (rw p at n))
      ]

bound-Moves :
    (host : Host) (world : World) (width element_type element_count : ℕ) (binding : Binding)
    (live payload : ℕ) (registry : Registry) (retained : States)
    → allocate_host_buffer host world.registry width element_type element_count
      ≡ allocated payload registry
    → (binding.owner == 0) ≡ false
    → retain_accounting_owner world.states binding.owner ≡ some retained
    → let b = allocate_tracked_host_buffer host world width element_type element_count binding in
      Moves binding.owner live (live + gained b.1 binding.canonical_bytes) world b.0
unfolding allocate_tracked_host_buffer release_host_buffer remove_host_allocation Moves
bound-Moves host world width element_type element_count binding live payload registry retained e o
      re =
    let kept = retain_accounting_owner-KeptStates world.states binding.owner retained re in
    elim (Option-cases (
      bind_semantic_host_buffer registry payload element_type binding.owner binding.canonical_bytes
        binding.ordinal binding.purpose)) [
          | inr (bound, be) ↦
              rw (e, re, be, allocate_tracked_host_buffer)
                (
                  kept,
                  λ token. ground (
                    arith,
                    bind-active_bytes registry payload element_type binding.owner
                        binding.canonical_bytes binding.ordinal binding.purpose token be,
                    allocate_host_buffer-active_bytes host world.registry width element_type
                        element_count payload registry token e,
                  ),
                )
          | inl free ↦
              let null =
                bind-null host world.registry width element_type element_count payload registry
                  binding.owner binding.canonical_bytes binding.ordinal binding.purpose e o free in
              let released = release_accounting_owner retained binding.owner in
              let stays =
                trans-KeptStates world.states retained released kept
                  (release_accounting_owner-KeptStates retained binding.owner) in
              rw (e, re, free, null, allocate_tracked_host_buffer)
                (
                  stays,
                  λ token. ground (
                    arith,
                    allocate_host_buffer-active_bytes host world.registry width element_type
                        element_count payload registry token e,
                  ),
                )
        ]

-- An allocation moves the owner's bytes by the amount bound to the buffer, or leaves them.
pub allocate_tracked-Moves :
    (host : Host) (world : World) (width element_type element_count : ℕ) (binding : Binding)
    (live : ℕ) (state : EvaluationResourceState)
    → find_resource_state world.states binding.owner ≡ some state
    → let b = allocate_tracked_host_buffer host world width element_type element_count binding in
      Moves binding.owner live (live + gained b.1 binding.canonical_bytes) world b.0
unfolding allocate_tracked_host_buffer Moves retain_accounting_owner find_resource_state
allocate_tracked-Moves host world width element_type element_count binding live state found =
    elim (Allocated-cases
      (allocate_host_buffer host world.registry width element_type element_count)) [
        | inl (reason, re) ↦
            rw (re, allocate_tracked_host_buffer)
              (refl-KeptStates world.states, λ token. ground arith)
        | inr (payload, registry, e) ↦
            bound-Moves host world width element_type element_count binding live payload registry
              (update_state world.states binding.owner retain_reference) e (ground (arith, found))
              (rw (found, retain_accounting_owner) refl)
      ]
