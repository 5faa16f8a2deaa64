-- ===== src/Resources/Release.antt =====
-- Giving storage back: `release_vector_reservation` and `release_workspace` of src/resources.cpp.
use bennu.Prelude.{
  ℕ, ◌-◌, ◌*◌, ◌/◌, Bool, ◌&&◌, ◌||◌, not, none, some, length, leb, ltb, if◌then◌else◌, ◌==◌,
  nat_eq,
}
use bennu.Prelude.Int.{pos}
use bennu.Primitive.Select.{size_max}
use bennu.HostStorage.Registry.{vector_payload, workspace, consume_semantic_host_buffer}
use bennu.Value.{
  VectorValue, element_width, element_identity, Value, scalar_value, vector_value, make_int_value,
  ValueInvariant, is_valid, invalid_vector_payload_handle,
}
use bennu.Resources.Types.{
  EvaluationResources, WorkspaceReservation, empty_workspace, byte_identity,
}
use bennu.Resources.Admission.{is_some}
use bennu.Resources.Validate.{validate_vector}
use bennu.Resources.World.{
  World, acquire_validated_resource_state, release_accounting_owner, release_host_buffer,
}
use bennu.Resources.Transaction.{Step, begin_resource_record_sync, finish_resource_record_sync}

-- The results of src/resources.cpp's `ValueReleaseResult`: `ok`, `invariant` and `error`.
pub data ValueReleaseResult : Type 0 where
  released resource_context_mismatch not_a_vector : ValueReleaseResult
  invalid : ValueInvariant → ValueReleaseResult

-- The bytes that a release gives back: those of an active vector of this owner.
unfoldable pub logical_bytes : EvaluationResources → VectorValue → ℕ
unfolding element_width
logical_bytes resources v =
    let bytes = length v.elements * element_width v.element_type in
    if leb (length v.elements) (size_max / element_width v.element_type)
      && (v.accounting_active
          && ((v.accounting_owner == resources.owner)
              && ((bytes == v.canonical_bytes) && leb bytes resources.live_evaluation_bytes)))
    then bytes
    else 0

unfoldable pub physical_release : World → VectorValue → World
unfolding release_host_buffer element_identity
physical_release world v =
    if v.storage == 0
    then world
    else release_host_buffer world v.storage (element_identity v.element_type)

-- After the binding is consumed: the refund, the reference of the owner and the buffer.
unfoldable pub finish_release :
    EvaluationResources → World → VectorValue → Step (ValueReleaseResult × Value)
unfolding logical_bytes release_accounting_owner physical_release make_int_value
finish_release resources world v =
    let unowned = record world {
      states = release_accounting_owner world.states v.accounting_owner;
    } in
    record {
      outcome = (released, scalar_value (make_int_value (pos 0)));
      resources = record resources {
        live_evaluation_bytes = resources.live_evaluation_bytes - logical_bytes resources v;
      };
      world = physical_release unowned v;
    }

unfoldable pub release_vector_locked :
    EvaluationResources → World → VectorValue → Step (ValueReleaseResult × Value)
unfolding finish_release consume_semantic_host_buffer
release_vector_locked resources world v =
    if v.canonical_bytes == 0
    then finish_release resources world v
    else elim (consume_semantic_host_buffer world.registry v.storage v.accounting_owner
        v.canonical_bytes v.allocation_ordinal vector_payload) [
          | none ↦ record {
            outcome = (invalid invalid_vector_payload_handle, vector_value v);
            resources = resources;
            world = world;
          }
          | some registry ↦ finish_release resources (record world { registry = registry }) v
        ]

abbrev pub unchanged :
    EvaluationResources
    → World
    → VectorValue
    → ValueReleaseResult
    → Step (ValueReleaseResult × Value)
unchanged resources world v result = record {
  outcome = (result, vector_value v);
  resources = resources;
  world = world;
}

unfoldable pub release_vector :
    World → EvaluationResources → VectorValue → Step (ValueReleaseResult × Value)
unfolding acquire_validated_resource_state begin_resource_record_sync finish_resource_record_sync
    release_vector_locked
release_vector world resources v =
    if v.accounting_active && not (v.accounting_owner == resources.owner)
    then unchanged resources world v resource_context_mismatch
    else elim (acquire_validated_resource_state world.states resources) [
      | none ↦ unchanged resources world v resource_context_mismatch
      | some state ↦
          finish_resource_record_sync resources.owner
            (release_vector_locked (begin_resource_record_sync resources state) world v)
    ]

unfoldable pub release_vector_reservation :
    World → EvaluationResources → Value → Step (ValueReleaseResult × Value)
unfolding release_vector validate_vector
release_vector_reservation world resources (scalar_value s) = record {
  outcome = (not_a_vector, scalar_value s);
  resources = resources;
  world = world;
}
release_vector_reservation world resources (vector_value v) =
    if is_valid (validate_vector world v)
    then release_vector world resources v
    else unchanged resources world v (invalid (validate_vector world v))

abbrev pub kept :
    EvaluationResources
    → World
    → WorkspaceReservation
    → ValueReleaseResult
    → Step (ValueReleaseResult × WorkspaceReservation)
kept resources world reservation result = record {
  outcome = (result, reservation);
  resources = resources;
  world = world;
}

unfoldable pub release_workspace_locked :
    EvaluationResources
    → World
    → WorkspaceReservation
    → Step (ValueReleaseResult × WorkspaceReservation)
unfolding consume_semantic_host_buffer release_accounting_owner release_host_buffer
release_workspace_locked resources world reservation =
    if not (reservation.accounting_owner == resources.owner)
      || ltb resources.live_evaluation_bytes reservation.bytes
    then kept resources world reservation resource_context_mismatch
    else elim (consume_semantic_host_buffer world.registry reservation.storage
        reservation.accounting_owner reservation.bytes reservation.allocation_ordinal workspace) [
          | none ↦ kept resources world reservation resource_context_mismatch
          | some registry ↦ record {
            outcome = (released, empty_workspace);
            resources = record resources {
              live_evaluation_bytes = resources.live_evaluation_bytes - reservation.bytes;
            };
            world =
                let states = release_accounting_owner world.states reservation.accounting_owner in
                release_host_buffer (record { states = states; registry = registry })
                  reservation.storage byte_identity;
          }
        ]

abbrev pub no_storage : WorkspaceReservation → Bool
no_storage reservation =
    (reservation.storage == 0)
    || ((reservation.accounting_owner == 0) || not (is_some reservation.allocation_ordinal))

unfoldable pub release_workspace :
    World
    → EvaluationResources
    → WorkspaceReservation
    → Step (ValueReleaseResult × WorkspaceReservation)
unfolding acquire_validated_resource_state begin_resource_record_sync finish_resource_record_sync
    release_workspace_locked
release_workspace world resources reservation =
    if reservation.bytes == 0
    then kept resources world reservation (
        if (reservation.storage == 0)
          && ((reservation.accounting_owner == 0) && not (is_some reservation.allocation_ordinal))
        then released
        else resource_context_mismatch)
    else if no_storage reservation
    then kept resources world reservation resource_context_mismatch
    else elim (acquire_validated_resource_state world.states resources) [
      | none ↦ kept resources world reservation resource_context_mismatch
      | some state ↦
          finish_resource_record_sync resources.owner (
            release_workspace_locked (begin_resource_record_sync resources state) world reservation)
    ]
