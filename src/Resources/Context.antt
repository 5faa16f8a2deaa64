-- ===== src/Resources/Context.antt =====
-- The life of an evaluation context: `make_resource_record`, `move_evaluation_resources`,
-- `refresh_evaluation_resources`, `update_evaluation_resource_configuration` and
-- `release_evaluation_resources` of src/resources.cpp.
use bennu.Prelude.{
  ℕ, ◌+◌, ◌^◌, ◌-◌, Bool, true, false, not, Option, none, some, if◌then◌else◌, ◌==◌, nat_eq,
}
use bennu.HostStorage.Registry.{no_failure, allocation_unavailable}
use bennu.Resources.Types.{
  ExecutionProfile, trusted_local_v1, bounded_v1, trusted_local_v2, bounded_v2, ResourceLimits,
  EvaluationResources, EvaluationResourceState,
}
use bennu.Resources.World.{
  States, acquire_validated_resource_state, update_state, release_accounting_owner,
}
use bennu.Resources.Transaction.{begin_resource_record_sync}

abbrev pub token_max : ℕ
token_max = 2 ^ 64 - 1

-- The token with the one after it; 0 when the tokens are used up.
unfoldable pub issue_resource_token : ℕ → ℕ × ℕ
issue_resource_token next_token =
    if next_token == 0
    then (0, 0)
    else (next_token, if next_token == token_max then 0 else next_token + 1)

abbrev pub no_limits : ResourceLimits
no_limits = record {
  max_vector_bytes = none;
  max_live_evaluation_bytes = none;
  max_work_units = none;
  max_tuple_table_bytes = none;
}

abbrev pub failed_resources : EvaluationResources
failed_resources = record {
  owner = 0;
  state_handle = 0;
  profile = trusted_local_v1;
  limits = no_limits;
  creation_error = allocation_unavailable;
  fail_at_reservation_ordinal = none;
  live_evaluation_bytes = 0;
  work_units = 0;
  reservation_ordinal = 0;
  configuration_version = 0;
}

pub record Created : Type 0 where
  pub resources : EvaluationResources
  pub states : States
  pub next_token : ℕ

-- `granted` tells whether the allocation of the state succeeds.
unfoldable pub make_resource_record :
    Bool → States → ℕ → ExecutionProfile → ResourceLimits → Option ℕ → ℕ → ℕ → ℕ → Created
unfolding issue_resource_token
make_resource_record granted states next_token profile limits fail_at live work ordinal =
    let issued = issue_resource_token next_token in
    let token = issued.0 in
    (if not granted
      then record { resources = failed_resources; states = states; next_token = next_token }
      else if token == 0
      then record { resources = failed_resources; states = states; next_token = issued.1 }
      else record {
        resources = record {
          owner = token;
          state_handle = token;
          profile = profile;
          limits = limits;
          creation_error = no_failure;
          fail_at_reservation_ordinal = fail_at;
          live_evaluation_bytes = live;
          work_units = work;
          reservation_ordinal = ordinal;
          configuration_version = 1;
        };
        states = λ other.
            if other == token
            then some (record {
              reference_count = 1;
              context_active = true;
              profile = profile;
              limits = limits;
              creation_error = no_failure;
              fail_at_reservation_ordinal = fail_at;
              live_evaluation_bytes = live;
              work_units = work;
              reservation_ordinal = ordinal;
              configuration_version = 1;
            })
            else states other;
        next_token = issued.1;
      })

abbrev pub without_owner : EvaluationResources → EvaluationResources
without_owner resources = record resources { owner = 0; state_handle = 0 }

-- The record that is returned, and the one that is left behind.
unfoldable pub move_evaluation_resources :
    States → EvaluationResources → EvaluationResources × EvaluationResources
unfolding acquire_validated_resource_state begin_resource_record_sync
move_evaluation_resources states resources =
    elim (acquire_validated_resource_state states resources) [
      | none ↦ (without_owner resources, resources)
      | some state ↦ (begin_resource_record_sync resources state, without_owner resources)
    ]

-- Nothing where the source returns false.
unfoldable pub refresh_evaluation_resources :
    States → EvaluationResources → Option EvaluationResources
unfolding acquire_validated_resource_state begin_resource_record_sync
refresh_evaluation_resources states resources =
    elim (acquire_validated_resource_state states resources) [
      | none ↦ none
      | some state ↦ some (begin_resource_record_sync resources state)
    ]

pub data EvaluationResourceConfigurationUpdate : Type 0 where
  updated stale_snapshot invalid_resource : EvaluationResourceConfigurationUpdate
  version_exhausted : EvaluationResourceConfigurationUpdate

pub record Configured : Type 0 where
  pub result : EvaluationResourceConfigurationUpdate
  pub resources : EvaluationResources
  pub states : States

abbrev pub with_configuration :
    EvaluationResources → EvaluationResourceState → EvaluationResourceState
with_configuration resources state = record state {
  profile = resources.profile;
  limits = resources.limits;
  creation_error = resources.creation_error;
  fail_at_reservation_ordinal = resources.fail_at_reservation_ordinal;
  configuration_version = state.configuration_version + 1;
}

unfoldable pub update_evaluation_resource_configuration : States → EvaluationResources → Configured
unfolding acquire_validated_resource_state begin_resource_record_sync update_state
update_evaluation_resource_configuration states resources =
    elim (acquire_validated_resource_state states resources) [
      | none ↦ record { result = invalid_resource; resources = resources; states = states }
      | some state ↦
          if not (resources.configuration_version == state.configuration_version)
          then record {
            result = stale_snapshot;
            resources = begin_resource_record_sync resources state;
            states = states;
          }
          else if state.configuration_version == token_max
          then record { result = version_exhausted; resources = resources; states = states }
          else record {
            result = updated;
            resources = record resources {
              configuration_version = state.configuration_version + 1;
            };
            states =
                update_state states resources.owner (λ s. some (with_configuration resources s));
          }
    ]

unfoldable pub release_evaluation_resources :
    States → EvaluationResources → EvaluationResources × States
unfolding acquire_validated_resource_state begin_resource_record_sync update_state
    release_accounting_owner
release_evaluation_resources states resources =
    elim (acquire_validated_resource_state states resources) [
      | none ↦ (without_owner resources, states)
      | some state ↦ (
        without_owner (begin_resource_record_sync resources state),
        release_accounting_owner
            (update_state states resources.owner (λ s. some (record s { context_active = false })))
            resources.owner,
      )
    ]

unfoldable pub make_trusted_local_resources : Bool → States → ℕ → Option ℕ → Created
unfolding make_resource_record
make_trusted_local_resources granted states next_token fail_at =
    make_resource_record granted states next_token trusted_local_v1 no_limits fail_at 0 0 0

unfoldable pub make_bounded_resources : Bool → States → ℕ → ResourceLimits → Option ℕ → Created
unfolding make_resource_record
make_bounded_resources granted states next_token limits fail_at =
    make_resource_record granted states next_token bounded_v1 limits fail_at 0 0 0

unfoldable pub make_trusted_local_v2_resources : Bool → States → ℕ → Option ℕ → Created
unfolding make_resource_record
make_trusted_local_v2_resources granted states next_token fail_at =
    make_resource_record granted states next_token trusted_local_v2 no_limits fail_at 0 0 0

unfoldable pub make_bounded_v2_resources : Bool → States → ℕ → ResourceLimits → Option ℕ → Created
unfolding make_resource_record
make_bounded_v2_resources granted states next_token limits fail_at =
    make_resource_record granted states next_token bounded_v2 limits fail_at 0 0 0
