-- ===== src/Resources/Admission.antt =====
-- Whether a request is within the limits of its context: `make_resource_failure`,
-- `validate_profile_configuration_locked`, `preflight` and `commit_admission` of src/resources.cpp.
use bennu.Prelude.{
  ℕ, ◌+◌, ◌-◌, Bool, true, false, ◌&&◌, ◌||◌, Option, none, some, [], Bytes, length, ltb, not,
  if◌then◌else◌, ◌==◌, nat_eq,
}
use bennu.Primitive.Select.{size_max}
use bennu.Error.{
  Error, resource_error, invalid_execution_profile, SourceLocation, make_error, HostAllocator,
  make_primitive_error_context, Outcome, success, failure, ResourceErrorReason, size_overflow,
  profile_limit, allocation_unavailable, ResourceLimitKind, max_vector_bytes,
  max_live_evaluation_bytes, max_work_units, PrimitiveErrorContext,
}
use bennu.HostStorage.Registry.{HostResourceErrorReason, no_failure}
use bennu.Resources.Types.{
  ExecutionProfile, trusted_local_v1, bounded_v1, trusted_local_v2, bounded_v2, ResourceLimits,
  EvaluationResources, EvaluationResourceState, execution_profile_name,
}

-- The primitive that an error names: none for an empty name.
unfoldable pub producer_context : HostAllocator → Bytes → Option PrimitiveErrorContext
unfolding make_primitive_error_context
producer_context host producer_name =
    if length producer_name == 0 then none else make_primitive_error_context host producer_name none

-- Who asks: the place in the source text and the name of the primitive.
pub record Request : Type 0 where
  pub location : SourceLocation
  pub producer_name : Bytes
  pub requested_elements : Option ℕ
  pub requested_bytes : Option ℕ

abbrev pub request_of : SourceLocation → Bytes → Option ℕ → Option ℕ → Request
request_of location producer_name elements bytes = record {
  location = location;
  producer_name = producer_name;
  requested_elements = elements;
  requested_bytes = bytes;
}

-- The parts of an error about a limit.
pub record Refusal : Type 0 where
  pub limit_kind : Option ResourceLimitKind
  pub configured_limit : Option ℕ
  pub usage_before : Option ℕ
  pub refused_charge : Option ℕ
  pub allocation_ordinal : Option ℕ

abbrev pub no_limit : Refusal
no_limit = record {
  limit_kind = none;
  configured_limit = none;
  usage_before = none;
  refused_charge = none;
  allocation_ordinal = none;
}

unfoldable pub make_resource_failure :
    HostAllocator → Bytes → ResourceErrorReason → Request → Refusal → Error
unfolding make_error producer_context
make_resource_failure host operation_profile reason request refusal =
    record (make_error resource_error request.location) {
      primitive = producer_context host request.producer_name;
      resource = some (record {
        reason = reason;
        requested_elements = request.requested_elements;
        requested_bytes = request.requested_bytes;
        profile = operation_profile;
        limit_kind = refusal.limit_kind;
        configured_limit = refusal.configured_limit;
        usage_before = refusal.usage_before;
        refused_charge = refusal.refused_charge;
        allocation_ordinal = refusal.allocation_ordinal;
      });
    }

abbrev pub is_some {ℓ} : {A : Type ℓ} → Option A → Bool
is_some none = false
is_some (some a) = true

unfoldable pub has_configured_limit : ResourceLimits → Bool
has_configured_limit limits =
    is_some limits.max_vector_bytes
    || (is_some limits.max_live_evaluation_bytes
        || (is_some limits.max_work_units || is_some limits.max_tuple_table_bytes))

-- Whether the limits that are set are those that the profile takes.
unfoldable pub configuration_accepted : ExecutionProfile → ResourceLimits → Bool
unfolding has_configured_limit
configuration_accepted trusted_local_v1 limits = not (has_configured_limit limits)
configuration_accepted bounded_v1 limits =
    has_configured_limit limits && not (is_some limits.max_tuple_table_bytes)
configuration_accepted trusted_local_v2 limits = not (has_configured_limit limits)
configuration_accepted bounded_v2 limits = has_configured_limit limits

abbrev pub failed_creation : HostResourceErrorReason → Bool
failed_creation no_failure = false
failed_creation _ = true

-- The message of an unaccepted configuration is a text and stays out.
unfoldable pub validate_profile_configuration_locked :
    HostAllocator
    → EvaluationResources
    → Option EvaluationResourceState
    → SourceLocation
    → Bytes
    → Option Error
unfolding make_resource_failure make_error producer_context configuration_accepted
    execution_profile_name
validate_profile_configuration_locked host resources state location producer_name =
    if not (is_some state) || failed_creation resources.creation_error
    then some (
        make_resource_failure host
          (elim state [ none ↦ [] | some s ↦ execution_profile_name resources.profile ])
          allocation_unavailable (request_of location producer_name none none) no_limit)
    else if configuration_accepted resources.profile resources.limits
    then none
    else some (record (make_error invalid_execution_profile location) {
      primitive = producer_context host producer_name;
    })

-- The usage after the request.
pub record Admission : Type 0 where
  pub live_after : ℕ
  pub work_after : ℕ

abbrev pub exceeds : ℕ → Option ℕ → Bool
exceeds usage none = false
exceeds usage (some limit) = ltb limit usage

-- Nothing where the source passes no vector size.
abbrev pub vector_exceeds : Option ℕ → Option ℕ → Bool
vector_exceeds none limit = false
vector_exceeds (some bytes) limit = exceeds bytes limit

unfoldable pub preflight :
    HostAllocator → EvaluationResources → Option ℕ → ℕ → ℕ → Request → Outcome Admission
unfolding make_resource_failure execution_profile_name
preflight host resources vector_bytes live_charge work_charge request =
    let profile = execution_profile_name resources.profile in
    let limits = resources.limits in
    let live_after = resources.live_evaluation_bytes + live_charge in
    let work_after = resources.work_units + work_charge in
    (if ltb (size_max - resources.live_evaluation_bytes) live_charge
        || ltb (size_max - resources.work_units) work_charge
      then failure (make_resource_failure host profile size_overflow request no_limit)
      else if vector_exceeds vector_bytes limits.max_vector_bytes
      then failure (
          make_resource_failure host profile profile_limit request (record {
            limit_kind = some max_vector_bytes;
            configured_limit = limits.max_vector_bytes;
            usage_before = some 0;
            refused_charge = vector_bytes;
            allocation_ordinal = none;
          }))
      else if exceeds live_after limits.max_live_evaluation_bytes
      then failure (
          make_resource_failure host profile profile_limit request (record {
            limit_kind = some max_live_evaluation_bytes;
            configured_limit = limits.max_live_evaluation_bytes;
            usage_before = some resources.live_evaluation_bytes;
            refused_charge = some live_charge;
            allocation_ordinal = none;
          }))
      else if exceeds work_after limits.max_work_units
      then failure (
          make_resource_failure host profile profile_limit request (record {
            limit_kind = some max_work_units;
            configured_limit = limits.max_work_units;
            usage_before = some resources.work_units;
            refused_charge = some work_charge;
            allocation_ordinal = none;
          }))
      else success (record { live_after = live_after; work_after = work_after }))

unfoldable pub commit_admission : EvaluationResources → Admission → EvaluationResources
commit_admission resources admission = record resources {
  live_evaluation_bytes = admission.live_after;
  work_units = admission.work_after;
}
