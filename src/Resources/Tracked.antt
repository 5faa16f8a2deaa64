-- ===== src/Resources/Tracked.antt =====
-- The buffer that `allocate_tracked_host_buffer` of src/resources.cpp hands out.
use bennu.Prelude.{
  ℕ, ◌+◌, ◌*◌, ◌≡◌, inl, inr, Bool-cases, Option-cases, true, false, none, some, ◌∷◌, ◌==◌, nat_eq,
  arith, refl, ap, sym,
}
use bennu.HostStorage.Registry.{
  purpose_eq, Registry, HostAllocationRecord, SemanticMetadata, SemanticPurpose, buffer,
  register_host_allocation, bind_semantic_host_buffer, bind_in, no_semantic,
}
use bennu.Error.{success}
use bennu.Primitive.Select.{size_max}
use bennu.Resources.Types.{EvaluationResources}
use bennu.Resources.World.{
  World, Host, States, Binding, allocated, buffer_record, allocate_host_buffer,
  allocate_tracked_host_buffer, retain_accounting_owner,
}
use bennu.Resources.Admission.{Request}
use bennu.Resources.Work.{Reservation, reserve_buffer, injected, binding_of}
use bennu.Resources.Allocated.{success-eq}
use bennu.Resources.Buffers.{allocate_host_buffer-cases, Allocated-cases}

abbrev pub bound_metadata : Binding → SemanticMetadata
bound_metadata binding = record {
  owner_token = binding.owner;
  canonical_bytes = binding.canonical_bytes;
  allocation_ordinal = binding.ordinal;
  semantic_purpose = binding.purpose;
  active = true;
}

-- The record of a buffer that is handed out.
pub record Tracked (r : HostAllocationRecord) (payload element_type bytes : ℕ) (binding : Binding)
    : Type 0 where
  pub address : r.payload ≡ payload
  pub is_buffer : r.purpose ≡ buffer
  pub type : r.element_type ≡ element_type
  pub size : r.byte_count ≡ bytes
  pub bound : r.semantic ≡ bound_metadata binding
  pub stored : (payload == 0) ≡ false
  pub typed : (element_type == 0) ≡ false
  pub owned : (binding.owner == 0) ≡ false

-- The binding of a record that was just registered.
bind-newest :
    (registry : Registry) (r : HostAllocationRecord) (registry' bound : Registry)
    (binding : Binding)
    → r.purpose ≡ buffer
    → register_host_allocation registry r ≡ some registry'
    → bind_semantic_host_buffer registry' r.payload r.element_type binding.owner
        binding.canonical_bytes binding.ordinal binding.purpose
      ≡ some bound
    → (bound ≡ record r { semantic = bound_metadata binding } ∷ registry)
      × ((r.payload == 0) ≡ false)
      × ((r.element_type == 0) ≡ false)
      × ((binding.owner == 0) ≡ false)
unfolding register_host_allocation bind_semantic_host_buffer bind_in
bind-newest registry r registry' bound binding b e be =
    let shape : registry' ≡ record r { semantic = no_semantic } ∷ registry = ground (arith, e) in
    let be' = (rw shape at be) in
    (ground (arith, b, be'), ground (arith, be'), ground (arith, be'), ground (arith, be'))

allocated-eq : {A : Type 0} {p q : ℕ} {a b : A} → allocated p a ≡ allocated q b → p ≡ q
allocated-eq e = cc

bind-null_address :
    (registry : Registry) (element_type owner bytes ordinal : ℕ) (purpose : SemanticPurpose)
    → bind_semantic_host_buffer registry 0 element_type owner bytes ordinal purpose ≡ none
unfolding bind_semantic_host_buffer
bind-null_address registry element_type owner bytes ordinal purpose = refl

-- The registry and the states after an allocation that is granted.
abbrev pub Handed : World → ℕ → ℕ → Binding → ℕ → World → Type 0
Handed world element_type bytes binding payload world' =
    (r : HostAllocationRecord) × Tracked r payload element_type bytes binding
    × (world'.registry ≡ r ∷ world.registry)
    × (retain_accounting_owner world.states binding.owner ≡ some world'.states)

granted-Handed :
    (host : Host) (world : World) (width element_type element_count : ℕ) (binding : Binding)
    (payload : ℕ) (registry bound : Registry) (retained : States)
    → allocate_host_buffer host world.registry width element_type element_count
      ≡ allocated payload registry
    → retain_accounting_owner world.states binding.owner ≡ some retained
    → bind_semantic_host_buffer registry payload element_type binding.owner binding.canonical_bytes
        binding.ordinal binding.purpose
      ≡ some bound
    → Handed world element_type
        (element_count * width)
        binding
        payload
        (record { states = retained; registry = bound })
granted-Handed host world width element_type element_count binding payload registry bound retained e
      re be =
    elim (allocate_host_buffer-cases host world.registry width element_type element_count payload
      registry e) [
        | inl (z, same) ↦ absurd (
            cc (
              bind-null_address registry element_type binding.owner binding.canonical_bytes
                  binding.ordinal binding.purpose,
              (rw z at be),
            ))
        | inr (address, p, registered, memory) ↦
            let r = buffer_record host address width element_type element_count in
            let newest =
              bind-newest world.registry r registry bound binding refl registered (rw p at be) in
            (
              record r { semantic = bound_metadata binding },
              record {
                address = sym p;
                is_buffer = refl;
                type = refl;
                size = refl;
                bound = refl;
                stored = rw p newest.1;
                typed = newest.2;
                owned = newest.3;
              },
              newest.0,
              re,
            )
      ]

pub allocate_tracked-Handed :
    (host : Host) (world : World) (width element_type element_count : ℕ) (binding : Binding)
    (payload : ℕ) (u : Unit {0})
    → (allocate_tracked_host_buffer host world width element_type element_count binding).1
      ≡ allocated payload u
    → Handed world element_type
        (element_count * width)
        binding
        payload
        (allocate_tracked_host_buffer host world width element_type element_count binding).0
unfolding allocate_tracked_host_buffer
allocate_tracked-Handed host world width element_type element_count binding payload u e =
    elim (Allocated-cases
      (allocate_host_buffer host world.registry width element_type element_count)) [
        | inl (reason, re) ↦ absurd (cc (rw (re, allocate_tracked_host_buffer) at e))
        | inr (address, registry, ae) ↦
            elim (Option-cases (retain_accounting_owner world.states binding.owner)) [
              | inl gone ↦ absurd (cc (rw (ae, gone, allocate_tracked_host_buffer) at e))
              | inr (retained, re) ↦
                  elim (Option-cases (
                    bind_semantic_host_buffer registry address element_type binding.owner
                      binding.canonical_bytes binding.ordinal binding.purpose)) [
                        | inl unbound ↦
                            absurd (cc (rw (ae, re, unbound, allocate_tracked_host_buffer) at e))
                        | inr (bound, be) ↦
                            let same : address ≡ payload =
                              allocated-eq (rw (ae, re, be, allocate_tracked_host_buffer) at e) in
                            let g =
                              granted-Handed host world width element_type element_count binding
                                address registry bound retained ae re be in
                            rw (ae, re, be, allocate_tracked_host_buffer, ← same)
                              (g.0, g.1, g.2, refl)
                      ]
            ]
      ]

-- What a reservation that is granted leaves: the ordinal is used up and the buffer is handed out.
pub reserve_buffer-Handed :
    (host : Host) (resources : EvaluationResources) (world : World) (wanted : Reservation)
    (request : Request) (payload ordinal : ℕ)
    → (reserve_buffer host resources world wanted request).outcome ≡ success (payload, ordinal)
    → let step = reserve_buffer host resources world wanted request in
      (ordinal ≡ resources.reservation_ordinal)
      × (step.resources
          ≡ record resources { reservation_ordinal = resources.reservation_ordinal + 1 })
      × Handed world wanted.element_type
          (wanted.element_count * wanted.width)
          (binding_of resources wanted)
          payload
          step.world
unfolding reserve_buffer
reserve_buffer-Handed host resources world wanted request payload ordinal e =
    elim (Bool-cases (resources.reservation_ordinal == size_max)) [
      | inl exhausted ↦ absurd (cc (rw (exhausted, reserve_buffer) at e))
      | inr left ↦
          elim (Bool-cases
            (injected resources.fail_at_reservation_ordinal resources.reservation_ordinal)) [
              | inl fails ↦ absurd (cc (rw (left, fails, reserve_buffer) at e))
              | inr goes ↦
                  let binding = binding_of resources wanted in
                  elim (Allocated-cases
                    (allocate_tracked_host_buffer host world wanted.width wanted.element_type
                      wanted.element_count binding).1) [
                        | inl (reason, re) ↦ absurd (cc (rw (left, goes, re, reserve_buffer) at e))
                        | inr (address, u, ae) ↦
                            let pair : ◌≡◌ {A = ℕ × ℕ} (payload, ordinal)
                                (address, resources.reservation_ordinal) =
                              success-eq (rw (left, goes, ae, reserve_buffer) at e) in
                            let same : address ≡ payload = sym (ap (λ x. x.0) pair) in
                            rw (left, goes, reserve_buffer)
                              (
                                ap (λ x. x.1) pair,
                                refl,
                                rw (← same) (
                                    allocate_tracked-Handed host world wanted.width
                                      wanted.element_type wanted.element_count binding address u
                                      ae),
                              )
                      ]
            ]
    ]
