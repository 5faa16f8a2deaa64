-- ===== src/Resources/Reservations.antt =====
-- The invariant of the contexts in `reserve_workspace` and `allocate_vector` of src/resources.cpp.
use bennu.Prelude.{
  ℕ, ◌+◌, ◌*◌, ◌/◌, ◌≡◌, inl, inr, Option, none, some, Bool-cases, Bytes, ◌==◌, nat_eq, arith, refl,
  ltb,
}
use bennu.Primitive.Select.{size_max}
use bennu.Scalar.Types.{ScalarType}
use bennu.Error.{SourceLocation, Outcome, success, failure, Outcome-cases}
use bennu.Value.{element_width, empty_vector}
use bennu.Resources.Types.{EvaluationResources, EvaluationResourceState, empty_workspace}
use bennu.Resources.Admission.{preflight, Request, request_of, commit_admission}
use bennu.Resources.Limits.{preflight-success, charge}
use bennu.Resources.World.{
  States, World, Host, find_resource_state, allocate_tracked_host_buffer,
  acquire_validated_resource_state,
}
use bennu.Resources.Transaction.{Step, begin_resource_record_sync}
use bennu.Resources.Sound.{WithinLimits, SoundWorld, Moves, still-Moves}
use bennu.Resources.Buffers.{Allocated-cases, allocate_tracked-Moves}
use bennu.Resources.Charges.{Keeps, idle-Keeps, Grants-WithinLimits, in_transaction-SoundWorld}
use bennu.Resources.Work.{
  full_workspace, Reservation, reserve_admitted, binding_of, reserve_buffer, injected,
  reserve_workspace, reserve_workspace_locked, workspace_reservation,
}
use bennu.Resources.Vector.{
  full_vector, allocate_vector, allocate_vector_locked, vector_reservation,
}

-- The charge that a reservation takes.
abbrev pub taken {ℓ} : {A : Type ℓ} → Outcome A → ℕ → ℕ
taken (failure error) bytes = 0
taken (success a) bytes = bytes

pub reserve_buffer-Moves :
    (host : Host) (resources : EvaluationResources) (world : World) (wanted : Reservation)
    (request : Request) (state : EvaluationResourceState) (live : ℕ)
    → find_resource_state world.states resources.owner ≡ some state
    → let step = reserve_buffer host resources world wanted request in
      Moves resources.owner live (live + taken step.outcome wanted.live_charge) world step.world
      × (step.resources.live_evaluation_bytes ≡ resources.live_evaluation_bytes)
      × (step.resources.work_units ≡ resources.work_units)
unfolding reserve_buffer
reserve_buffer-Moves host resources world wanted request state live found =
    let idle = still-Moves resources.owner live world in
    elim (Bool-cases (resources.reservation_ordinal == size_max)) [
      | inl exhausted ↦ rw (exhausted, reserve_buffer) (idle, refl, refl)
      | inr left ↦
          elim (Bool-cases
            (injected resources.fail_at_reservation_ordinal resources.reservation_ordinal)) [
              | inl fails ↦ rw (left, fails, reserve_buffer) (idle, refl, refl)
              | inr goes ↦
                  let binding = binding_of resources wanted in
                  let moves =
                    allocate_tracked-Moves host world wanted.width wanted.element_type
                      wanted.element_count binding live state found in
                  elim (Allocated-cases
                    (allocate_tracked_host_buffer host world wanted.width wanted.element_type
                      wanted.element_count binding).1) [
                        | inl (reason, re) ↦
                            rw (left, goes, re, reserve_buffer) ((rw re at moves), refl, refl)
                        | inr (payload, u, ae) ↦
                            rw (left, goes, ae, reserve_buffer) ((rw ae at moves), refl, refl)
                      ]
            ]
    ]

granted-Keeps {ℓ} :
    {A : Type ℓ} (owner : ℕ) (state : EvaluationResourceState) (world : World) (step : Step A)
    (bytes : ℕ)
    → Moves owner state.live_evaluation_bytes (state.live_evaluation_bytes + bytes) world step.world
    → step.resources.live_evaluation_bytes ≡ state.live_evaluation_bytes + bytes
    → WithinLimits state.limits step.resources.live_evaluation_bytes step.resources.work_units
    → Keeps owner state world step
unfolding Moves
granted-Keeps owner state world step bytes moves live within = record {
  moves = (rw live moves);
  within = within;
}

reserve_admitted-Keeps {ℓ} :
    {A : Type ℓ} (host : Host) (resources : EvaluationResources) (world : World)
    (wanted : Reservation) (units : ℕ) (request : Request) (empty : A) (full : ℕ → ℕ → A)
    (state : EvaluationResourceState)
    → find_resource_state world.states resources.owner ≡ some state
    → resources.live_evaluation_bytes ≡ state.live_evaluation_bytes
    → resources.work_units ≡ state.work_units
    → WithinLimits state.limits state.live_evaluation_bytes state.work_units
    → WithinLimits state.limits
        (resources.live_evaluation_bytes + wanted.live_charge)
        (resources.work_units + units)
    → Keeps resources.owner state world (
        reserve_admitted host resources world
          (charge resources wanted.live_charge units)
          wanted
          request
          empty
          full)
unfolding reserve_admitted commit_admission WithinLimits
reserve_admitted-Keeps host resources world wanted units request empty full state found l w within
      after =
    let owner = resources.owner in
    let live = state.live_evaluation_bytes in
    let reserved = reserve_buffer host resources world wanted request in
    let r = reserve_buffer-Moves host resources world wanted request state live found in
    elim (Bool-cases (wanted.live_charge == 0)) [
      | inl nothing ↦
          rw (nothing, reserve_admitted)
            (granted-Keeps owner state world _ 0 (still-Moves owner live world)
              (ground (arith, l, nothing)) after)
      | inr something ↦ elim (Outcome-cases reserved.outcome) [
        | inr (error, refusal) ↦
            rw (something, refusal, reserve_admitted)
              (granted-Keeps owner state world _ 0 (rw refusal at r.0) (ground (arith, r.1, l))
                (rw (r.1, r.2, l, w) within))
        | inl (place, granted) ↦
            rw (something, granted, reserve_admitted)
              (granted-Keeps owner state world _ wanted.live_charge (rw granted at r.0)
                (ground (arith, l)) after)
      ]
    ]

admitted-Keeps {ℓ} :
    {A : Type ℓ} (host : Host) (resources : EvaluationResources) (world : World)
    (vector_bytes : Option ℕ) (wanted : Reservation) (units : ℕ) (request : Request) (empty : A)
    (full : ℕ → ℕ → A) (state : EvaluationResourceState)
    → find_resource_state world.states resources.owner ≡ some state
    → resources.live_evaluation_bytes ≡ state.live_evaluation_bytes
    → resources.work_units ≡ state.work_units
    → resources.limits ≡ state.limits
    → WithinLimits state.limits state.live_evaluation_bytes state.work_units
    → Keeps resources.owner state world
        (elim (preflight host.names resources vector_bytes wanted.live_charge units request) [
          | failure error ↦ record { outcome = failure error; resources = resources; world = world }
          | success admission ↦
              reserve_admitted host resources world admission wanted request empty full
        ])
unfolding WithinLimits
admitted-Keeps host resources world vector_bytes wanted units request empty full state found l w k
      within =
    elim (Outcome-cases
      (preflight host.names resources vector_bytes wanted.live_charge units request)) [
        | inr (error, refusal) ↦
            rw refusal (idle-Keeps (failure error) resources state resources.owner world l w within)
        | inl (admission, admitted) ↦
            let granted =
              preflight-success host.names resources vector_bytes wanted.live_charge units request
                (rw l within.0) (rw w within.1) admitted in
            rw (admitted, granted.1)
              (reserve_admitted-Keeps host resources world wanted units request empty full state
                found l w within
                (Grants-WithinLimits resources state.limits vector_bytes wanted.live_charge units k
                  granted.0))
      ]

pub acquire-find :
    (states : States) (resources : EvaluationResources) (state : EvaluationResourceState)
    → acquire_validated_resource_state states resources ≡ some state
    → find_resource_state states resources.owner ≡ some state
unfolding acquire_validated_resource_state
acquire-find states resources state e = ground (arith, e)

-- Reserving a workspace keeps the invariant of every context, whatever the outcome: the live bytes
-- of each owner are the bytes bound to it, and its usage is within its limits and a machine word.
pub reserve_workspace-SoundWorld :
    (host : Host) (world : World) (resources : EvaluationResources) (byte_count units : ℕ)
    (location : SourceLocation) (producer_name : Bytes)
    → SoundWorld world
    → SoundWorld
        (reserve_workspace host world resources byte_count units location producer_name).world
unfolding reserve_workspace reserve_workspace_locked begin_resource_record_sync
reserve_workspace-SoundWorld host world resources byte_count units location producer_name sound =
    in_transaction-SoundWorld host world resources location producer_name
      (reserve_workspace_locked host byte_count units location producer_name) sound
      (λ state found acquired within.
        admitted-Keeps host (begin_resource_record_sync resources state) world none
          (workspace_reservation byte_count) units
          (request_of location producer_name none (some byte_count)) empty_workspace
          (full_workspace byte_count resources.owner) state
          (acquire-find world.states resources state acquired) refl refl refl within)

allocate_vector_locked-Keeps :
    (host : Host) (element_type : ScalarType) (count units : ℕ) (location : SourceLocation)
    (producer_name : Bytes) (resources : EvaluationResources) (state : EvaluationResourceState)
    (world : World)
    → find_resource_state world.states resources.owner ≡ some state
    → resources.live_evaluation_bytes ≡ state.live_evaluation_bytes
    → resources.work_units ≡ state.work_units
    → resources.limits ≡ state.limits
    → WithinLimits state.limits state.live_evaluation_bytes state.work_units
    → Keeps resources.owner state world (
        allocate_vector_locked host element_type count units location producer_name resources world)
unfolding allocate_vector_locked vector_reservation
allocate_vector_locked-Keeps host element_type count units location producer_name resources state
      world found l w k within =
    let bytes = count * element_width element_type in
    elim (Bool-cases (ltb size_max count)) [
      | inl large ↦
          rw (large, allocate_vector_locked)
            (idle-Keeps _ resources state resources.owner world l w within)
      | inr word ↦ elim (Bool-cases (ltb (size_max / element_width element_type) count)) [
        | inl wide ↦
            rw (word, wide, allocate_vector_locked)
              (idle-Keeps _ resources state resources.owner world l w within)
        | inr fits ↦
            rw (word, fits, allocate_vector_locked)
              (admitted-Keeps host resources world (some bytes)
                (vector_reservation element_type count) units
                (request_of location producer_name (some count) (some bytes))
                (empty_vector element_type) (full_vector element_type count resources.owner) state
                found l w k within)
      ]
    ]

-- Allocating a vector keeps the invariant of every context, whatever the outcome: the live bytes of
-- each owner are the bytes bound to it, and its usage is within its limits and a machine word.
pub allocate_vector-SoundWorld :
    (host : Host) (world : World) (resources : EvaluationResources) (element_type : ScalarType)
    (count units : ℕ) (location : SourceLocation) (producer_name : Bytes)
    → SoundWorld world
    → SoundWorld
        (allocate_vector host world resources element_type count units location producer_name).world
unfolding allocate_vector begin_resource_record_sync
allocate_vector-SoundWorld host world resources element_type count units location producer_name
      sound =
    in_transaction-SoundWorld host world resources location producer_name
      (allocate_vector_locked host element_type count units location producer_name) sound
      (λ state found acquired within.
        allocate_vector_locked-Keeps host element_type count units location producer_name
          (begin_resource_record_sync resources state) state world
          (acquire-find world.states resources state acquired) refl refl refl within)
