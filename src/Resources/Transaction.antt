-- ===== src/Resources/Transaction.antt =====
-- The frame of an operation of src/resources.cpp: the record of the caller is read from the state of
-- its owner, the operation changes the record, and the usage goes back into the state.
use bennu.Prelude.{ℕ, Option, none, some, Bytes}
use bennu.Error.{SourceLocation, Outcome, failure}
use bennu.Resources.Types.{EvaluationResources, EvaluationResourceState}
use bennu.Resources.World.{World, Host, acquire_validated_resource_state, update_state}
use bennu.Resources.Admission.{validate_profile_configuration_locked}

-- An operation's result with the two things that it changes.
pub record Step {ℓ} (A : Type ℓ) : Type ℓ where
  pub outcome : A
  pub resources : EvaluationResources
  pub world : World

unfoldable pub begin_resource_record_sync :
    EvaluationResources → EvaluationResourceState → EvaluationResources
begin_resource_record_sync resources state = record resources {
  profile = state.profile;
  limits = state.limits;
  creation_error = state.creation_error;
  fail_at_reservation_ordinal = state.fail_at_reservation_ordinal;
  live_evaluation_bytes = state.live_evaluation_bytes;
  work_units = state.work_units;
  reservation_ordinal = state.reservation_ordinal;
  configuration_version = state.configuration_version;
}

abbrev pub with_usage : EvaluationResources → EvaluationResourceState → EvaluationResourceState
with_usage resources state = record state {
  live_evaluation_bytes = resources.live_evaluation_bytes;
  work_units = resources.work_units;
  reservation_ordinal = resources.reservation_ordinal;
}

unfoldable pub finish_resource_record_sync {ℓ} : {A : Type ℓ} → ℕ → Step A → Step A
unfolding update_state
finish_resource_record_sync token step = record step {
  world = record step.world {
    states = update_state step.world.states token (λ s. some (with_usage step.resources s));
  };
}

-- An operation behind the check of the profile.
unfoldable pub with_valid_profile {ℓ} :
    {A : Type ℓ}
    → Host
    → World
    → EvaluationResources
    → Option EvaluationResourceState
    → SourceLocation
    → Bytes
    → (EvaluationResources → World → Step (Outcome A))
    → Step (Outcome A)
unfolding validate_profile_configuration_locked
with_valid_profile host world resources state location producer_name body =
    elim (validate_profile_configuration_locked host.names resources state location producer_name) [
      | none ↦ body resources world
      | some error ↦ record { outcome = failure error; resources = resources; world = world }
    ]

-- The common start of `allocate_vector`, `reserve_workspace` and `charge_work`: the state is
-- acquired and the profile checked, and what follows runs on the record read from the state.
unfoldable pub in_transaction {ℓ} :
    {A : Type ℓ}
    → Host
    → World
    → EvaluationResources
    → SourceLocation
    → Bytes
    → (EvaluationResources → World → Step (Outcome A))
    → Step (Outcome A)
unfolding acquire_validated_resource_state begin_resource_record_sync finish_resource_record_sync
    with_valid_profile
in_transaction host world resources location producer_name body =
    elim (acquire_validated_resource_state world.states resources) [
      | none ↦ with_valid_profile host world resources none location producer_name body
      | some state ↦ finish_resource_record_sync resources.owner (
          with_valid_profile host world (begin_resource_record_sync resources state) (some state)
            location producer_name body)
    ]
