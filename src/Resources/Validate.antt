-- ===== src/Resources/Validate.antt =====
-- Whether a value is what an evaluation made: `validate_value` of src/value.cpp on scalars and
-- vectors. A boolean element is a Boolean here, so the refusal of a byte over 1 has no counterpart.
use bennu.Prelude.{
  ℕ, ◌*◌, ◌/◌, Bool, true, false, ◌&&◌, ◌||◌, not, List, [], ◌∷◌, none, some, length, ltb,
  if◌then◌else◌, ◌==◌, nat_eq, bool_eq,
}
use bennu.Primitive.Select.{size_max}
use bennu.Scalar.Types.{ScalarType, ScalarValue, double_precision}
use bennu.Scalar.Binary64.{is_canonical_double}
use bennu.HostStorage.Registry.{
  Registry, buffer, find_host_allocation, semantic_host_buffer_matches, vector_payload,
}
use bennu.Value.{
  VectorValue, element_width, element_identity, Value, scalar_value, vector_value, ValueInvariant,
  no_violation, inactive_vector_payload, noncanonical_nan, invalid_vector_payload_handle,
  validate_scalar,
}
use bennu.Resources.Admission.{is_some}
use bennu.Resources.World.{States, World, find_resource_state}

unfoldable pub resource_state_owner_is_live : States → ℕ → Bool
unfolding find_resource_state
resource_state_owner_is_live states owner = is_some (find_resource_state states owner)

unfoldable pub host_buffer_valid : Registry → ℕ → ℕ → ℕ → Bool
unfolding find_host_allocation
host_buffer_valid registry storage element_type required_bytes =
    if storage == 0
    then required_bytes == 0
    else elim (find_host_allocation registry storage buffer element_type) [
      | none ↦ false
      | some r ↦ required_bytes == r.byte_count
    ]

-- The test on the lambda `accounting_valid`.
unfoldable pub accounting_valid : World → VectorValue → Bool
unfolding resource_state_owner_is_live semantic_host_buffer_matches element_width
accounting_valid world v =
    let bytes = length v.elements * element_width v.element_type in
    (if ltb (size_max / element_width v.element_type) (length v.elements)
      then false
      else not (
          not (v.canonical_bytes == bytes)
          || (((bytes == 0) && v.accounting_active)
              || ((v.accounting_active
                    && ((v.accounting_owner == 0)
                        || not (resource_state_owner_is_live world.states v.accounting_owner)))
                  || ((not (bytes == 0)
                        && (v.accounting_active && not (is_some v.allocation_ordinal)))
                      || (((bytes == 0) && is_some v.allocation_ordinal)
                          || ((not v.accounting_active && not (v.accounting_owner == 0))
                              || (not (bytes == 0)
                                  && (v.accounting_active
                                      && not (
                                          semantic_host_buffer_matches world.registry v.storage
                                            v.accounting_owner bytes v.allocation_ordinal
                                            vector_payload))))))))))

unfoldable pub all_canonical : List ScalarValue → Bool
unfolding is_canonical_double
all_canonical [] = true
all_canonical (s ∷ elements) = is_canonical_double s.double_bits && all_canonical elements

abbrev pub checks_elements : ScalarType → Bool
checks_elements double_precision = true
checks_elements _ = false

unfoldable pub validate_vector : World → VectorValue → ValueInvariant
unfolding host_buffer_valid accounting_valid all_canonical element_width element_identity
validate_vector world v =
    let width = element_width v.element_type in
    let count = length v.elements in
    (if not ((count == 0) == (v.storage == 0))
      then inactive_vector_payload
      else if ltb (size_max / width) count
          || not (
              host_buffer_valid world.registry v.storage (element_identity v.element_type)
                (count * width))
      then invalid_vector_payload_handle
      else if checks_elements v.element_type && not (all_canonical v.elements)
      then noncanonical_nan
      else if accounting_valid world v
      then no_violation
      else invalid_vector_payload_handle)

unfoldable pub validate_value : World → Value → ValueInvariant
unfolding validate_vector validate_scalar
validate_value world (scalar_value s) = validate_scalar s
validate_value world (vector_value v) = validate_vector world v
