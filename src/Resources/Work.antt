-- ===== src/Resources/Work.antt =====
-- `charge_work` and `reserve_workspace` of src/resources.cpp.
use bennu.Prelude.{ℕ, ◌+◌, Bool, false, Option, none, some, Bytes, if◌then◌else◌, ◌==◌, nat_eq}
use bennu.Primitive.Select.{size_max}
use bennu.Error.{
  SourceLocation, Outcome, success, failure, ResourceErrorReason, size_overflow,
  allocation_unavailable,
}
use bennu.HostStorage.Registry.{HostResourceErrorReason, SemanticPurpose, workspace}
use bennu.Resources.Types.{
  EvaluationResources, byte_identity, WorkspaceReservation, empty_workspace, execution_profile_name,
}
use bennu.Resources.World.{Host, World, Binding, allocated, refused, allocate_tracked_host_buffer}
use bennu.Resources.Admission.{
  Request, request_of, Refusal, no_limit, make_resource_failure, preflight, commit_admission,
  Admission,
}
use bennu.Resources.Transaction.{Step, in_transaction}

unfoldable pub charge_work_locked :
    Host → ℕ → SourceLocation → Bytes → EvaluationResources → World → Step {0} (Outcome Unit)
unfolding preflight commit_admission
charge_work_locked host work_units location producer_name resources world =
    elim (preflight host.names resources none 0 work_units
      (request_of location producer_name none none)) [
        | failure error ↦ record { outcome = failure error; resources = resources; world = world }
        | success admission ↦ record {
          outcome = success tt;
          resources = commit_admission resources admission;
          world = world;
        }
      ]

unfoldable pub charge_work :
    Host → World → EvaluationResources → ℕ → SourceLocation → Bytes → Step {0} (Outcome Unit)
unfolding in_transaction charge_work_locked
charge_work host world resources work_units location producer_name =
    in_transaction host world resources location producer_name
      (charge_work_locked host work_units location producer_name)

-- A reservation that `preflight` admits and that is not empty: the ordinal, the injected failure
-- and the buffer. `allocate_vector` and `reserve_workspace` both end like this.
pub record Reservation : Type 0 where
  pub live_charge : ℕ
  pub width : ℕ
  pub element_type : ℕ
  pub element_count : ℕ
  pub purpose : SemanticPurpose

abbrev pub failure_reason : HostResourceErrorReason → ResourceErrorReason
failure_reason HostResourceErrorReason.size_overflow = size_overflow
failure_reason _ = allocation_unavailable

abbrev pub at_ordinal : ℕ → Refusal
at_ordinal ordinal = record no_limit { allocation_ordinal = some ordinal }

abbrev pub injected : Option ℕ → ℕ → Bool
injected none ordinal = false
injected (some fail_at) ordinal = ordinal == fail_at

abbrev pub binding_of : EvaluationResources → Reservation → Binding
binding_of resources wanted = record {
  owner = resources.owner;
  canonical_bytes = wanted.live_charge;
  ordinal = resources.reservation_ordinal;
  purpose = wanted.purpose;
}

-- The address of the buffer with the ordinal of its reservation.
unfoldable pub reserve_buffer :
    Host → EvaluationResources → World → Reservation → Request → Step (Outcome (ℕ × ℕ))
unfolding make_resource_failure allocate_tracked_host_buffer execution_profile_name
reserve_buffer host resources world wanted request =
    let profile = execution_profile_name resources.profile in
    let ordinal = resources.reservation_ordinal in
    (if ordinal == size_max
      then record {
        outcome = failure (make_resource_failure host.names profile size_overflow request no_limit);
        resources = resources;
        world = world;
      }
      else let numbered = record resources { reservation_ordinal = ordinal + 1 } in
        (if injected resources.fail_at_reservation_ordinal ordinal
          then record {
            outcome = failure (
                make_resource_failure host.names profile allocation_unavailable request
                  (at_ordinal ordinal));
            resources = numbered;
            world = world;
          }
          else let buffer =
              allocate_tracked_host_buffer host world wanted.width wanted.element_type
                wanted.element_count (binding_of resources wanted) in
            record {
              outcome = elim buffer.1 [
                | refused reason ↦ failure (
                    make_resource_failure host.names profile (failure_reason reason) request
                      (at_ordinal ordinal))
                | allocated payload u ↦ success (payload, ordinal)
              ];
              resources = numbered;
              world = buffer.0;
            }))

-- The common end of `allocate_vector` and `reserve_workspace`: an empty reservation needs no
-- buffer, and the admission is committed when the buffer is there.
unfoldable pub reserve_admitted {ℓ} :
    {A : Type ℓ}
    → Host
    → EvaluationResources
    → World
    → Admission
    → Reservation
    → Request
    → A
    → (ℕ → ℕ → A)
    → Step (Outcome A)
unfolding commit_admission reserve_buffer
reserve_admitted host resources world admission wanted request empty full =
    let reserved = reserve_buffer host resources world wanted request in
    if wanted.live_charge == 0
    then record {
      outcome = success empty;
      resources = commit_admission resources admission;
      world = world;
    }
    else elim reserved.outcome [
      | failure error ↦ record {
        outcome = failure error;
        resources = reserved.resources;
        world = reserved.world;
      }
      | success (payload, ordinal) ↦ record {
        outcome = success (full payload ordinal);
        resources = commit_admission reserved.resources admission;
        world = reserved.world;
      }
    ]

abbrev pub workspace_reservation : ℕ → Reservation
workspace_reservation byte_count = record {
  live_charge = byte_count;
  width = 1;
  element_type = byte_identity;
  element_count = byte_count;
  purpose = workspace;
}

abbrev pub full_workspace : ℕ → ℕ → ℕ → ℕ → WorkspaceReservation
full_workspace byte_count owner payload ordinal = record {
  storage = payload;
  bytes = byte_count;
  accounting_owner = owner;
  allocation_ordinal = some ordinal;
}

unfoldable pub reserve_workspace_locked :
    Host
    → ℕ
    → ℕ
    → SourceLocation
    → Bytes
    → EvaluationResources
    → World
    → Step (Outcome WorkspaceReservation)
unfolding preflight reserve_admitted
reserve_workspace_locked host byte_count work_units location producer_name resources world =
    let request = request_of location producer_name none (some byte_count) in
    elim (preflight host.names resources none byte_count work_units request) [
      | failure error ↦ record { outcome = failure error; resources = resources; world = world }
      | success admission ↦
          reserve_admitted host resources world admission (workspace_reservation byte_count) request
            empty_workspace (full_workspace byte_count resources.owner)
    ]

unfoldable pub reserve_workspace :
    Host
    → World
    → EvaluationResources
    → ℕ
    → ℕ
    → SourceLocation
    → Bytes
    → Step (Outcome WorkspaceReservation)
unfolding in_transaction reserve_workspace_locked
reserve_workspace host world resources byte_count work_units location producer_name =
    in_transaction host world resources location producer_name
      (reserve_workspace_locked host byte_count work_units location producer_name)
