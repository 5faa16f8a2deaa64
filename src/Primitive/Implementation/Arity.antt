-- ===== src/Primitive/Implementation/Arity.antt =====
-- The arity and the result of a signature that matches its implementation.
use bennu.Prelude.{
  ℕ, ◌≢◌, ◌≡◌, refl, Bool, true, ◌&&◌, List, [], ◌∷◌, length, arith, ◌==◌, &&-eq-true,
}
use bennu.Scalar.Types.{
  ScalarType, boolean, integer, double_precision, scalar, scalar_type_eq, container_eq,
}
use bennu.Primitive.Types.{
  PrimitiveId, PrimitiveImplementation, ValueType, PrimitiveSignature, id_eq,
}
use bennu.Primitive.Types
use bennu.Primitive.Implementation.{
  all_scalar, scalar_parameters_match, one_scalar_int, iota_signature_matches, matches_as,
  implementation_matches,
}

-- The number of operands of a kernel.
abbrev pub arity : PrimitiveImplementation → ℕ
arity Types.no_implementation = 0
arity Types.inc_integer = 1
arity Types.inc_double = 1
arity Types.add_integer = 2
arity Types.add_double = 2
arity Types.equals_boolean = 2
arity Types.equals_integer = 2
arity Types.equals_double = 2
arity Types.logical_not_boolean = 1
arity Types.iota_integer = 1
arity Types.logical_and_boolean = 2
arity Types.logical_or_boolean = 2
arity Types.not_equals_boolean = 2
arity Types.not_equals_integer = 2
arity Types.not_equals_double = 2
arity Types.odd_integer = 1
arity Types.even_integer = 1
arity Types.is_positive_integer = 1
arity Types.is_positive_double = 1
arity Types.is_negative_integer = 1
arity Types.is_negative_double = 1
arity Types.less_than_integer = 2
arity Types.less_than_double = 2
arity Types.greater_than_integer = 2
arity Types.greater_than_double = 2
arity Types.dec_integer = 1
arity Types.dec_double = 1
arity Types.neg_integer = 1
arity Types.neg_double = 1
arity Types.abs_integer = 1
arity Types.abs_double = 1
arity Types.sub_integer = 2
arity Types.sub_double = 2
arity Types.mul_integer = 2
arity Types.mul_double = 2

-- The type of what a kernel returns.
abbrev pub result_of : PrimitiveImplementation → ScalarType
result_of Types.no_implementation = boolean
result_of Types.inc_integer = integer
result_of Types.inc_double = double_precision
result_of Types.add_integer = integer
result_of Types.add_double = double_precision
result_of Types.equals_boolean = boolean
result_of Types.equals_integer = boolean
result_of Types.equals_double = boolean
result_of Types.logical_not_boolean = boolean
result_of Types.iota_integer = integer
result_of Types.logical_and_boolean = boolean
result_of Types.logical_or_boolean = boolean
result_of Types.not_equals_boolean = boolean
result_of Types.not_equals_integer = boolean
result_of Types.not_equals_double = boolean
result_of Types.odd_integer = boolean
result_of Types.even_integer = boolean
result_of Types.is_positive_integer = boolean
result_of Types.is_positive_double = boolean
result_of Types.is_negative_integer = boolean
result_of Types.is_negative_double = boolean
result_of Types.less_than_integer = boolean
result_of Types.less_than_double = boolean
result_of Types.greater_than_integer = boolean
result_of Types.greater_than_double = boolean
result_of Types.dec_integer = integer
result_of Types.dec_double = double_precision
result_of Types.neg_integer = integer
result_of Types.neg_double = double_precision
result_of Types.abs_integer = integer
result_of Types.abs_double = double_precision
result_of Types.sub_integer = integer
result_of Types.sub_double = double_precision
result_of Types.mul_integer = integer
result_of Types.mul_double = double_precision

all_scalar-length :
    (ps : List ValueType) (ts : List ScalarType) → all_scalar ps ts ≡ true → length ps ≡ length ts
unfolding all_scalar
all_scalar-length [] [] h = refl
all_scalar-length [] (t ∷ ts) h = cc
all_scalar-length (p ∷ ps) [] h = cc
all_scalar-length (p ∷ ps) (t ∷ ts) h = ground (arith, all_scalar-length ps ts)

scalar_parameters_match-shape :
    (s : PrimitiveSignature) (ts : List ScalarType) (r : ScalarType)
    → scalar_parameters_match s ts r ≡ true
    → (length s.parameters ≡ length ts) × (s.result.element ≡ r)
unfolding scalar_parameters_match
scalar_parameters_match-shape s ts r h =
    ground (arith, all_scalar-length s.parameters ts, scalar_type_eq.test_iff s.result.element r)

one_scalar_int-length : (ps : List ValueType) → one_scalar_int ps ≡ true → length ps ≡ 1
unfolding one_scalar_int
one_scalar_int-length (p ∷ []) h = refl
one_scalar_int-length [] h = cc
one_scalar_int-length (p ∷ q ∷ ps) h = cc

iota_signature_matches-shape :
    (s : PrimitiveSignature)
    → iota_signature_matches s ≡ true
    → (length s.parameters ≡ 1) × (s.result.element ≡ integer)
unfolding iota_signature_matches
iota_signature_matches-shape s h =
    ground
      (arith, one_scalar_int-length s.parameters, scalar_type_eq.test_iff s.result.element integer)

abbrev HasShape : PrimitiveImplementation → PrimitiveSignature → Type 0
HasShape i s = (length s.parameters ≡ arity i) × (s.result.element ≡ result_of i)

second : (a b : Bool) → (a && b) ≡ true → b ≡ true
second a b h = (&&-eq-true a b h).1

matches_as-shape :
    (i : PrimitiveImplementation) (id : PrimitiveId) (s : PrimitiveSignature)
    → matches_as i id s ≡ true
    → HasShape i s
unfolding matches_as
matches_as-shape Types.no_implementation id s h = cc
matches_as-shape Types.iota_integer id s h = iota_signature_matches-shape s (second _ _ h)
matches_as-shape _ id s h = scalar_parameters_match-shape s _ _ (second _ _ h)

pub implementation_matches-shape :
    (id : PrimitiveId) (s : PrimitiveSignature)
    → implementation_matches id s ≡ true
    → (length s.parameters ≡ arity s.implementation)
      × (s.result.element ≡ result_of s.implementation)
unfolding implementation_matches
implementation_matches-shape id s h = matches_as-shape s.implementation id s h

-- A signature with a scalar result is not that of `iota`, nor one with no kernel.
matches_as-scalar :
    (i : PrimitiveImplementation) (id : PrimitiveId) (s : PrimitiveSignature)
    → matches_as i id s ≡ true
    → (s.result.container == scalar) ≡ true
    → (i ≢ Types.no_implementation) × (i ≢ Types.iota_integer)
unfolding matches_as iota_signature_matches
matches_as-scalar Types.no_implementation id s h k = cc
matches_as-scalar Types.iota_integer id s h k = absurd (ground arith)
matches_as-scalar _ id s h k = ground arith

pub implementation_matches-scalar :
    (id : PrimitiveId) (s : PrimitiveSignature)
    → implementation_matches id s ≡ true
    → (s.result.container == scalar) ≡ true
    → (s.implementation ≢ Types.no_implementation) × (s.implementation ≢ Types.iota_integer)
unfolding implementation_matches
implementation_matches-scalar id s h k = matches_as-scalar s.implementation id s h k
