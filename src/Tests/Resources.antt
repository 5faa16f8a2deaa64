-- ===== src/Tests/Resources.antt =====
-- Evaluation contexts and their buffers: src/resources.cpp and src/host_storage.cpp.
use bennu.Prelude.{
  ℕ, ◌≡◌, ◌≢◌, ◌⊎◌, ◌+◌, ◌↔◌, refl, true, Bool-cases, inl, inr, [], ◌∷◌, none, some, codes,
  if◌then◌else◌, ◌==◌, nat_eq, arith,
}
use bennu.Prelude.Int.{pos}
use bennu.Scalar.Types.{integer}
use bennu.Error.{start_location, success}
use bennu.HostStorage.Registry.{
  HostAllocationRecord, buffer, workspace, vector_payload, SemanticPurpose, no_failure, Registry,
  remove_host_allocation,
}
use bennu.HostStorage.Removed.{Removes, remove_host_allocation-Removes}
use bennu.HostStorage.Accounts.{active_bytes, bytes_of, refund_of}
use bennu.HostStorage.Aliasing.{Unaliased, holds_buffer}
use bennu.Value.{VectorValue, vector_value, make_int_value}
use bennu.Resources.Types.{
  EvaluationResources, EvaluationResourceState, ResourceLimits, bounded_v1, WorkspaceReservation,
}
use bennu.Resources.World.{World, Host}
use bennu.Resources.Admission.{preflight, request_of}
use bennu.Resources.Limits.{Grants, charge, preflight_iff}
use bennu.Resources.Sound.{SoundWorld, GoodState, WithinLimits}
use bennu.Resources.Work.{charge_work, reserve_workspace}
use bennu.Resources.Vector.{allocate_vector}
use bennu.Resources.Release.{release_workspace, release_vector_reservation}
use bennu.Resources.Charges.{charge_work-SoundWorld}
use bennu.Resources.Reservations.{reserve_workspace-SoundWorld, allocate_vector-SoundWorld}
use bennu.Resources.Releases.{release_workspace-SoundWorld}
use bennu.Resources.VectorReleases.{release_vector_reservation-SoundWorld}

abbrev limits : ResourceLimits
limits = record {
  max_vector_bytes = some 64;
  max_live_evaluation_bytes = some 100;
  max_work_units = some 10;
  max_tuple_table_bytes = none;
}

-- The record of the one owner, with 16 bytes in use.
abbrev pub resources : EvaluationResources
resources = record {
  owner = 1;
  state_handle = 1;
  profile = bounded_v1;
  limits = limits;
  creation_error = no_failure;
  fail_at_reservation_ordinal = none;
  live_evaluation_bytes = 16;
  work_units = 2;
  reservation_ordinal = 1;
  configuration_version = 1;
}

abbrev state : EvaluationResourceState
state = record {
  reference_count = 2;
  context_active = true;
  profile = bounded_v1;
  limits = limits;
  creation_error = no_failure;
  fail_at_reservation_ordinal = none;
  live_evaluation_bytes = 16;
  work_units = 2;
  reservation_ordinal = 1;
  configuration_version = 1;
}

-- A buffer of 16 bytes at address 512, bound to the owner.
abbrev pub held : ℕ → SemanticPurpose → HostAllocationRecord
held element_type purpose = record {
  allocation = 400;
  payload = 512;
  byte_count = 16;
  purpose = buffer;
  element_type = element_type;
  constructed = 0;
  capacity = 0;
  semantic = record {
    owner_token = 1;
    canonical_bytes = 16;
    allocation_ordinal = 0;
    semantic_purpose = purpose;
    active = true;
  };
}

abbrev pub world_with : HostAllocationRecord → World
world_with r = record {
  states = λ token. if token == 1 then some state else none;
  registry = r ∷ [];
}

-- An allocator that always answers, each time with a block behind those before.
abbrev host : Host
host = record {
  names = record { grants = λ bytes. true };
  malloc = λ registry bytes. elim registry [ [] ↦ some 2048 | r ∷ rest ↦ some (r.payload + 4096) ];
  header_size = 96;
  header_alignment = 8;
}

pub world-SoundWorld :
    (element_type : ℕ) (purpose : SemanticPurpose)
    → SoundWorld (world_with (held element_type purpose))
unfolding SoundWorld GoodState WithinLimits active_bytes bytes_of
world-SoundWorld element_type purpose token s e = elim (Bool-cases (token == 1)) [
  | inl one ↦
      let this : s ≡ state = ground (arith, e, one) in
      let at : token ≡ 1 = ground (arith, one) in
      rw (this, at) (refl, (omega arith, omega arith, omega arith, omega arith))
  | inr other ↦ absurd (ground (arith, e, other))
]

pub world-Unaliased :
    (element_type : ℕ) (purpose : SemanticPurpose)
    → Unaliased (world_with (held element_type purpose)).registry
unfolding Unaliased holds_buffer
world-Unaliased element_type purpose = (λ b. refl, tt)

charge_work-SoundWorld_example :
    SoundWorld
      (charge_work host
        (world_with (held 4 workspace))
        resources
        3
        start_location
        (codes "inc")).world
charge_work-SoundWorld_example =
    charge_work-SoundWorld host (world_with (held 4 workspace)) resources 3 start_location
      (codes "inc") (world-SoundWorld 4 workspace)

reserve_workspace-SoundWorld_example :
    SoundWorld
      (reserve_workspace host
        (world_with (held 4 workspace))
        resources
        8
        1
        start_location
        (codes "inc")).world
reserve_workspace-SoundWorld_example =
    reserve_workspace-SoundWorld host (world_with (held 4 workspace)) resources 8 1 start_location
      (codes "inc") (world-SoundWorld 4 workspace)

allocate_vector-SoundWorld_example :
    SoundWorld
      (allocate_vector host
        (world_with (held 4 workspace))
        resources
        integer
        3
        3
        start_location
        (codes "iota")).world
allocate_vector-SoundWorld_example =
    allocate_vector-SoundWorld host (world_with (held 4 workspace)) resources integer 3 3
      start_location (codes "iota") (world-SoundWorld 4 workspace)

abbrev reservation : WorkspaceReservation
reservation = record {
  storage = 512;
  bytes = 16;
  accounting_owner = 1;
  allocation_ordinal = some 0;
}

release_workspace-SoundWorld_example :
    SoundWorld (release_workspace (world_with (held 4 workspace)) resources reservation).world
release_workspace-SoundWorld_example =
    release_workspace-SoundWorld (world_with (held 4 workspace)) resources reservation
      (world-SoundWorld 4 workspace) (world-Unaliased 4 workspace)

abbrev two_integers : VectorValue
two_integers = record {
  element_type = integer;
  storage = 512;
  elements = make_int_value (pos 7) ∷ make_int_value (pos 8) ∷ [];
  canonical_bytes = 16;
  accounting_active = true;
  accounting_owner = 1;
  allocation_ordinal = some 0;
}

release_vector_reservation-SoundWorld_example :
    SoundWorld
      (release_vector_reservation
        (world_with (held 2 vector_payload))
        resources
        (vector_value two_integers)).world
release_vector_reservation-SoundWorld_example =
    release_vector_reservation-SoundWorld (world_with (held 2 vector_payload)) resources
      (vector_value two_integers) (world-SoundWorld 2 vector_payload)
      (world-Unaliased 2 vector_payload)

preflight_iff_example :
    (preflight host.names resources (some 24) 24 3 (request_of start_location [] none none)
      ≡ success (charge resources 24 3))
    ↔ Grants resources (some 24) 24 3
preflight_iff_example =
    preflight_iff host.names resources (some 24) 24 3 (request_of start_location [] none none)
      (omega arith) (omega arith)

abbrev held_payload : ℕ
held_payload = 512

abbrev held_element : ℕ
held_element = 4

abbrev held_registry : Registry
held_registry = held 4 workspace ∷ []

remove_host_allocation-Removes_example :
    let removal = remove_host_allocation held_registry held_payload buffer held_element in
    (((held_payload ≢ 0)
        × (held_element ≢ 0)
        × Removes held_registry held_payload buffer held_element removal)
      ⊎ (((held_payload ≡ 0) ⊎ (held_element ≡ 0))
          × (removal ≡ record { removed = none; registry = held_registry })))
    × (active_bytes 1 removal.registry + refund_of 1 removal.removed ≡ active_bytes 1 held_registry)
remove_host_allocation-Removes_example =
    remove_host_allocation-Removes held_registry held_payload buffer held_element 1
