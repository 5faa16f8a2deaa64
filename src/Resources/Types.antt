-- ===== src/Resources/Types.antt =====
-- The records of include/bennu/resources.hpp. No
-- lifetime observer is installed, so its fields have no counterpart, and neither has the mutex of a
-- state.
use bennu.Prelude.{ℕ, Bool, Option, none, Bytes, codes}
use bennu.HostStorage.Registry.{HostResourceErrorReason}

pub data ExecutionProfile : Type 0 where
  trusted_local_v1 bounded_v1 trusted_local_v2 bounded_v2 : ExecutionProfile

unfoldable pub execution_profile_name : ExecutionProfile → Bytes
execution_profile_name trusted_local_v1 = codes "trusted-local-v1"
execution_profile_name bounded_v1 = codes "bounded-v1"
execution_profile_name trusted_local_v2 = codes "trusted-local-v2"
execution_profile_name bounded_v2 = codes "bounded-v2"

pub record ResourceLimits : Type 0 where
  pub max_vector_bytes : Option ℕ
  pub max_live_evaluation_bytes : Option ℕ
  pub max_work_units : Option ℕ
  pub max_tuple_table_bytes : Option ℕ

-- `owner` and `state_handle` are the tokens of the source's fields of these names, and
-- `fail_at_reservation_ordinal` is the one field of its `allocation_failure`.
pub record EvaluationResources : Type 0 where
  pub owner : ℕ
  pub state_handle : ℕ
  pub profile : ExecutionProfile
  pub limits : ResourceLimits
  pub creation_error : HostResourceErrorReason
  pub fail_at_reservation_ordinal : Option ℕ
  pub live_evaluation_bytes : ℕ
  pub work_units : ℕ
  pub reservation_ordinal : ℕ
  pub configuration_version : ℕ

pub record EvaluationResourceState : Type 0 where
  pub reference_count : ℕ
  pub context_active : Bool
  pub profile : ExecutionProfile
  pub limits : ResourceLimits
  pub creation_error : HostResourceErrorReason
  pub fail_at_reservation_ordinal : Option ℕ
  pub live_evaluation_bytes : ℕ
  pub work_units : ℕ
  pub reservation_ordinal : ℕ
  pub configuration_version : ℕ

abbrev pub byte_identity : ℕ
byte_identity = 4

pub record WorkspaceReservation : Type 0 where
  pub storage : ℕ
  pub bytes : ℕ
  pub accounting_owner : ℕ
  pub allocation_ordinal : Option ℕ

abbrev pub empty_workspace : WorkspaceReservation
empty_workspace = record { storage = 0; bytes = 0; accounting_owner = 0; allocation_ordinal = none }
