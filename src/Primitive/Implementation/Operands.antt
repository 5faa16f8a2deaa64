-- ===== src/Primitive/Implementation/Operands.antt =====
-- The signature that each kernel implements, as `implementation_matches` of src/primitive.cpp wants
-- it.
use bennu.Prelude.{◌≡◌, ◌≢◌, refl, true, List, [], ◌∷◌, map, ◌==◌, &&-eq-true}
use bennu.Scalar.Types.{
  ScalarType, boolean, integer, double_precision, scalar, vector, scalar_type_eq, container_eq,
}
use bennu.Primitive.Types.{
  PrimitiveId, PrimitiveImplementation, ValueType, PrimitiveSignature, id_eq,
}
use bennu.Primitive.Types
use bennu.Primitive.Implementation.{
  all_scalar, scalar_parameters_match, one_scalar_int, iota_signature_matches, matches_as,
  implementation_matches,
}
use bennu.Primitive.Implementation.Arity.{result_of}

-- The primitive of a kernel; the value for no kernel is not used.
abbrev pub primitive_of : PrimitiveImplementation → PrimitiveId
primitive_of Types.no_implementation = Types.inc
primitive_of Types.inc_integer = Types.inc
primitive_of Types.inc_double = Types.inc
primitive_of Types.add_integer = Types.add
primitive_of Types.add_double = Types.add
primitive_of Types.equals_boolean = Types.equals
primitive_of Types.equals_integer = Types.equals
primitive_of Types.equals_double = Types.equals
primitive_of Types.logical_not_boolean = Types.logical_not
primitive_of Types.iota_integer = Types.iota
primitive_of Types.logical_and_boolean = Types.logical_and
primitive_of Types.logical_or_boolean = Types.logical_or
primitive_of Types.not_equals_boolean = Types.not_equals
primitive_of Types.not_equals_integer = Types.not_equals
primitive_of Types.not_equals_double = Types.not_equals
primitive_of Types.odd_integer = Types.odd
primitive_of Types.even_integer = Types.even
primitive_of Types.is_positive_integer = Types.is_positive
primitive_of Types.is_positive_double = Types.is_positive
primitive_of Types.is_negative_integer = Types.is_negative
primitive_of Types.is_negative_double = Types.is_negative
primitive_of Types.less_than_integer = Types.less_than
primitive_of Types.less_than_double = Types.less_than
primitive_of Types.greater_than_integer = Types.greater_than
primitive_of Types.greater_than_double = Types.greater_than
primitive_of Types.dec_integer = Types.dec
primitive_of Types.dec_double = Types.dec
primitive_of Types.neg_integer = Types.neg
primitive_of Types.neg_double = Types.neg
primitive_of Types.abs_integer = Types.abs
primitive_of Types.abs_double = Types.abs
primitive_of Types.sub_integer = Types.sub
primitive_of Types.sub_double = Types.sub
primitive_of Types.mul_integer = Types.mul
primitive_of Types.mul_double = Types.mul

-- The types of a kernel's operands.
abbrev pub operands : PrimitiveImplementation → List ScalarType
operands Types.no_implementation = []
operands Types.inc_integer = integer ∷ []
operands Types.inc_double = double_precision ∷ []
operands Types.add_integer = integer ∷ integer ∷ []
operands Types.add_double = double_precision ∷ double_precision ∷ []
operands Types.equals_boolean = boolean ∷ boolean ∷ []
operands Types.equals_integer = integer ∷ integer ∷ []
operands Types.equals_double = double_precision ∷ double_precision ∷ []
operands Types.logical_not_boolean = boolean ∷ []
operands Types.iota_integer = integer ∷ []
operands Types.logical_and_boolean = boolean ∷ boolean ∷ []
operands Types.logical_or_boolean = boolean ∷ boolean ∷ []
operands Types.not_equals_boolean = boolean ∷ boolean ∷ []
operands Types.not_equals_integer = integer ∷ integer ∷ []
operands Types.not_equals_double = double_precision ∷ double_precision ∷ []
operands Types.odd_integer = integer ∷ []
operands Types.even_integer = integer ∷ []
operands Types.is_positive_integer = integer ∷ []
operands Types.is_positive_double = double_precision ∷ []
operands Types.is_negative_integer = integer ∷ []
operands Types.is_negative_double = double_precision ∷ []
operands Types.less_than_integer = integer ∷ integer ∷ []
operands Types.less_than_double = double_precision ∷ double_precision ∷ []
operands Types.greater_than_integer = integer ∷ integer ∷ []
operands Types.greater_than_double = double_precision ∷ double_precision ∷ []
operands Types.dec_integer = integer ∷ []
operands Types.dec_double = double_precision ∷ []
operands Types.neg_integer = integer ∷ []
operands Types.neg_double = double_precision ∷ []
operands Types.abs_integer = integer ∷ []
operands Types.abs_double = double_precision ∷ []
operands Types.sub_integer = integer ∷ integer ∷ []
operands Types.sub_double = double_precision ∷ double_precision ∷ []
operands Types.mul_integer = integer ∷ integer ∷ []
operands Types.mul_double = double_precision ∷ double_precision ∷ []

abbrev pub scalar_of : ScalarType → ValueType
scalar_of element = record { container = scalar; element = element }

-- A kernel returns a scalar, but that of `iota` a vector.
abbrev pub returned : PrimitiveImplementation → ValueType
returned Types.iota_integer = record { container = vector; element = integer }
returned i = scalar_of (result_of i)

-- The signature has a kernel of its primitive, with the operands and the result of the kernel.
pub record IsImplemented (id : PrimitiveId) (s : PrimitiveSignature) : Type 0 where
  pub has_kernel : s.implementation ≢ Types.no_implementation
  pub of_primitive : id ≡ primitive_of s.implementation
  pub takes_operands : s.parameters ≡ map scalar_of (operands s.implementation)
  pub returns_result : s.result ≡ returned s.implementation

-- A value type is its container and its element.
value_type-parts :
    (t : ValueType) (u : ValueType)
    → (t.container == u.container) ≡ true
    → (t.element == u.element) ≡ true
    → t ≡ u
value_type-parts t u c e =
    let same_container = (container_eq.test_iff t.container u.container).0 c in
    let same_element = (scalar_type_eq.test_iff t.element u.element).0 e in cc

all_scalar-map :
    (ps : List ValueType) (ts : List ScalarType) → all_scalar ps ts ≡ true → ps ≡ map scalar_of ts
unfolding all_scalar
all_scalar-map [] [] h = refl
all_scalar-map [] (t ∷ ts) h = absurd cc
all_scalar-map (p ∷ ps) [] h = absurd cc
all_scalar-map (p ∷ ps) (t ∷ ts) h =
    let (c, r) = &&-eq-true _ _ h in
    let (e, rest) = &&-eq-true _ _ r in
    let same = value_type-parts p (scalar_of t) c e in let others = all_scalar-map ps ts rest in cc

scalar_parameters_match-types :
    (s : PrimitiveSignature) (ts : List ScalarType) (r : ScalarType)
    → scalar_parameters_match s ts r ≡ true
    → (s.parameters ≡ map scalar_of ts) × (s.result ≡ scalar_of r)
unfolding scalar_parameters_match
scalar_parameters_match-types s ts r h =
    let (c, rest) = &&-eq-true _ _ h in
    let (e, ps) = &&-eq-true _ _ rest in
    (all_scalar-map s.parameters ts ps, value_type-parts s.result (scalar_of r) c e)

one_scalar_int-parameters :
    (ps : List ValueType) → one_scalar_int ps ≡ true → ps ≡ scalar_of integer ∷ []
unfolding one_scalar_int
one_scalar_int-parameters (p ∷ []) h =
    let (c, e) = &&-eq-true _ _ h in let same = value_type-parts p (scalar_of integer) c e in cc
one_scalar_int-parameters [] h = absurd cc
one_scalar_int-parameters (p ∷ q ∷ ps) h = absurd cc

iota_signature_matches-types :
    (s : PrimitiveSignature)
    → iota_signature_matches s ≡ true
    → (s.parameters ≡ scalar_of integer ∷ [])
      × (s.result ≡ record { container = vector; element = integer })
unfolding iota_signature_matches
iota_signature_matches-types s h =
    let (ps, rest) = &&-eq-true _ _ h in
    let (c, e) = &&-eq-true _ _ rest in
    (
      one_scalar_int-parameters s.parameters ps,
      value_type-parts s.result (record { container = vector; element = integer }) c e,
    )

abbrev Matches : PrimitiveImplementation → PrimitiveId → PrimitiveSignature → Type 0
Matches i id s =
    (i ≢ Types.no_implementation)
    × (id ≡ primitive_of i)
    × (s.parameters ≡ map scalar_of (operands i))
    × (s.result ≡ returned i)

matches_as-Matches :
    (i : PrimitiveImplementation) (id : PrimitiveId) (s : PrimitiveSignature)
    → matches_as i id s ≡ true
    → Matches i id s
unfolding matches_as
matches_as-Matches Types.no_implementation id s h = absurd cc
matches_as-Matches Types.iota_integer id s h =
    let (same, rest) = &&-eq-true _ _ h in
    let (parameters, result) = iota_signature_matches-types s rest in
    (λ e. absurd cc, (id_eq.test_iff id _).0 same, parameters, result)
matches_as-Matches _ id s h =
    let (same, rest) = &&-eq-true _ _ h in
    let (parameters, result) = scalar_parameters_match-types s _ _ rest in
    (λ e. absurd cc, (id_eq.test_iff id _).0 same, parameters, result)

pub implementation_matches-IsImplemented :
    (id : PrimitiveId) (s : PrimitiveSignature)
    → implementation_matches id s ≡ true
    → IsImplemented id s
unfolding implementation_matches
implementation_matches-IsImplemented id s h =
    let (kernel, same, parameters, result) = matches_as-Matches s.implementation id s h in
    record {
      has_kernel = kernel;
      of_primitive = same;
      takes_operands = parameters;
      returns_result = result;
    }
