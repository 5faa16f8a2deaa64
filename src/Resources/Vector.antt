-- ===== src/Resources/Vector.antt =====
-- `allocate_vector` of src/resources.cpp and the copies into a vector.
use bennu.Prelude.{
  ℕ, zero, suc, ◌*◌, ◌/◌, true, false, List, [], ◌∷◌, none, some, Bytes, length, ltb, if◌then◌else◌,
  nat_eq, map,
}
use bennu.Prelude.Int.{ℤ, pos}
use bennu.Primitive.Select.{size_max}
use bennu.Scalar.Types.{ScalarType, ScalarValue, boolean, integer, double_precision}
use bennu.Value.{
  VectorValue, empty_vector, element_width, element_identity, make_bool_value, make_int_value,
  make_double_value,
}
use bennu.Error.{Error, SourceLocation, Outcome, success, failure, size_overflow}
use bennu.HostStorage.Registry.{vector_payload}
use bennu.Resources.Types.{EvaluationResources, execution_profile_name}
use bennu.Resources.World.{Host, World}
use bennu.Resources.Admission.{request_of, no_limit, make_resource_failure, preflight}
use bennu.Resources.Transaction.{Step, in_transaction}
use bennu.Resources.Work.{reserve_admitted, Reservation}

-- The element that `memset` leaves in a fresh buffer.
unfoldable pub zero_element : ScalarType → ScalarValue
unfolding make_bool_value make_int_value
zero_element boolean = make_bool_value false
zero_element integer = make_int_value (pos 0)
zero_element double_precision = record (make_int_value (pos 0)) { kind = double_precision }

unfoldable pub replicate : ℕ → ScalarValue → List ScalarValue
replicate zero value = []
replicate (suc n) value = value ∷ replicate n value

unfoldable pub vector_reservation : ScalarType → ℕ → Reservation
unfolding element_width element_identity
vector_reservation element_type element_count = record {
  live_charge = element_count * element_width element_type;
  width = element_width element_type;
  element_type = element_identity element_type;
  element_count = element_count;
  purpose = vector_payload;
}

-- The vector of zeros on a fresh buffer.
unfoldable pub full_vector : ScalarType → ℕ → ℕ → ℕ → ℕ → VectorValue
unfolding element_width zero_element replicate
full_vector element_type element_count owner payload ordinal = record {
  element_type = element_type;
  storage = payload;
  elements = replicate element_count (zero_element element_type);
  canonical_bytes = element_count * element_width element_type;
  accounting_active = true;
  accounting_owner = owner;
  allocation_ordinal = some ordinal;
}

unfoldable pub allocate_vector_locked :
    Host
    → ScalarType
    → ℕ
    → ℕ
    → SourceLocation
    → Bytes
    → EvaluationResources
    → World
    → Step (Outcome VectorValue)
unfolding preflight reserve_admitted make_resource_failure execution_profile_name element_width
    vector_reservation empty_vector full_vector
allocate_vector_locked host element_type element_count work_units location producer_name resources
      world =
    let width = element_width element_type in
    let byte_count = element_count * width in
    let sized = request_of location producer_name in
    let request = sized (some element_count) (some byte_count) in
    let profile = execution_profile_name resources.profile in
    let refusal : Error → Step (Outcome VectorValue) =
      λ error. record { outcome = failure error; resources = resources; world = world } in
    (if ltb size_max element_count
      then refusal
          (make_resource_failure host.names profile size_overflow (sized none none) no_limit)
      else if ltb (size_max / width) element_count
      then refusal (
          make_resource_failure host.names profile size_overflow (sized (some element_count) none)
            no_limit)
      else elim (preflight host.names resources (some byte_count) byte_count work_units request) [
        | failure error ↦ refusal error
        | success admission ↦
            reserve_admitted host resources world admission
              (vector_reservation element_type element_count) request (empty_vector element_type)
              (full_vector element_type element_count resources.owner)
      ])

unfoldable pub allocate_vector :
    Host
    → World
    → EvaluationResources
    → ScalarType
    → ℕ
    → ℕ
    → SourceLocation
    → Bytes
    → Step (Outcome VectorValue)
unfolding in_transaction allocate_vector_locked
allocate_vector host world resources element_type element_count work_units location producer_name =
    in_transaction host world resources location producer_name
      (allocate_vector_locked host element_type element_count work_units location producer_name)

abbrev pub filled : Outcome VectorValue → List ScalarValue → Outcome VectorValue
filled (failure error) elements = failure error
filled (success v) elements = success (record v { elements = elements })

unfoldable pub copy_int_vector :
    Host
    → World
    → EvaluationResources
    → List ℤ
    → SourceLocation
    → Bytes
    → Step (Outcome VectorValue)
unfolding allocate_vector make_int_value
copy_int_vector host world resources values location producer_name =
    let step =
      allocate_vector host world resources integer (length values) 0 location producer_name in
    record step { outcome = filled step.outcome (map make_int_value values) }

unfoldable pub copy_double_vector :
    Host
    → World
    → EvaluationResources
    → List ℕ
    → SourceLocation
    → Bytes
    → Step (Outcome VectorValue)
unfolding allocate_vector make_double_value
copy_double_vector host world resources values location producer_name =
    let step =
      allocate_vector host world resources double_precision (length values) 0 location
        producer_name in
    record step { outcome = filled step.outcome (map make_double_value values) }
