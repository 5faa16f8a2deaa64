-- ===== src/Value.antt =====
-- Scalar and vector values: include/bennu/value.hpp and src/value.cpp. A vector keeps its elements
-- as scalars of its element type.
use bennu.Prelude.{
  ◌≡◌, arith, ℕ, Bool, true, false, not, ◌||◌, ◌==◌, nat_eq, if◌then◌else◌, List, [], Option, none,
}
use bennu.Prelude.Int.{ℤ, pos, eqb_ℤ}
use bennu.Scalar.Types.{
  ScalarType, ScalarValue, boolean, integer, double_precision, ContainerKind, scalar, vector,
}
use bennu.Scalar.Binary64.{normalize_double, is_canonical_double}

-- The buffer of the element type, which is the only one of the three that is ever filled: its
-- address, 0 for none, and its elements.
pub record VectorValue : Type 0 where
  pub element_type : ScalarType
  pub storage : ℕ
  pub elements : List ScalarValue
  pub canonical_bytes : ℕ
  pub accounting_active : Bool
  pub accounting_owner : ℕ
  pub allocation_ordinal : Option ℕ

unfoldable pub empty_vector : ScalarType → VectorValue
empty_vector element_type = record {
  element_type = element_type;
  storage = 0;
  elements = [];
  canonical_bytes = 0;
  accounting_active = false;
  accounting_owner = 0;
  allocation_ordinal = none;
}

unfoldable pub element_width : ScalarType → ℕ
element_width boolean = 1
element_width integer = 8
element_width double_precision = 8

-- The addresses of `host_element_type_identity`, which differ and are not null.
unfoldable pub element_identity : ScalarType → ℕ
element_identity boolean = 1
element_identity integer = 2
element_identity double_precision = 3

-- A value is its container's part. Tuples have no counterpart.
pub data Value : Type 0 where
  scalar_value : ScalarValue → Value
  vector_value : VectorValue → Value

unfoldable pub container : Value → ContainerKind
container (scalar_value s) = scalar
container (vector_value v) = vector

unfoldable pub make_bool_value : Bool → ScalarValue
make_bool_value value = record {
  kind = boolean;
  boolean_field = value;
  integer_field = pos 0;
  double_bits = 0;
}

unfoldable pub make_int_value : ℤ → ScalarValue
make_int_value value = record {
  kind = integer;
  boolean_field = false;
  integer_field = value;
  double_bits = 0;
}

unfoldable pub make_double_value : ℕ → ScalarValue
unfolding normalize_double
make_double_value value = record {
  kind = double_precision;
  boolean_field = false;
  integer_field = pos 0;
  double_bits = normalize_double value;
}

-- The enumerators that scalars and vectors can be refused with.
pub data ValueInvariant : Type 0 where
  no_violation inactive_scalar_field inactive_vector_payload noncanonical_nan : ValueInvariant
  invalid_vector_payload_handle : ValueInvariant

abbrev pub is_valid : ValueInvariant → Bool
is_valid no_violation = true
is_valid _ = false

pub is_valid_lem : (v : ValueInvariant) → is_valid v ≡ true → v ≡ no_violation
is_valid_lem v e = ground (arith, e)

-- The switch of `validate_scalar` on the tag.
unfoldable pub validate_fields : ScalarType → ScalarValue → ValueInvariant
unfolding is_canonical_double
validate_fields boolean s =
    if not (eqb_ℤ s.integer_field (pos 0)) || not (s.double_bits == 0)
    then inactive_scalar_field
    else no_violation
validate_fields integer s =
    if s.boolean_field || not (s.double_bits == 0) then inactive_scalar_field else no_violation
validate_fields double_precision s =
    if s.boolean_field || not (eqb_ℤ s.integer_field (pos 0))
    then inactive_scalar_field
    else if is_canonical_double s.double_bits
    then no_violation
    else noncanonical_nan

unfoldable pub validate_scalar : ScalarValue → ValueInvariant
unfolding validate_fields
validate_scalar s = validate_fields s.kind s
