-- ===== src/Primitive/Implementation.antt =====
-- `implementation_matches` of src/primitive.cpp: whether a signature is the one that its kernel
-- implements.
pub mod Arity
pub mod Operands
use bennu.Prelude.{Bool, true, false, ◌&&◌, List, [], ◌∷◌, ◌==◌}
use bennu.Scalar.Types.{
  ScalarType, boolean, integer, double_precision, scalar, vector, scalar_type_eq, container_eq,
}
use bennu.Primitive.Types.{
  PrimitiveId, PrimitiveImplementation, ValueType, PrimitiveSignature, id_eq,
}
use bennu.Primitive.Types

-- The loop of the lambda `scalar_parameters_match`, the counts compared with it.
all_scalar : List ValueType → List ScalarType → Bool
all_scalar [] [] = true
all_scalar (p ∷ ps) (t ∷ ts) = p.container == scalar && (p.element == t && all_scalar ps ts)
all_scalar _ _ = false

scalar_parameters_match : PrimitiveSignature → List ScalarType → ScalarType → Bool
unfolding all_scalar
scalar_parameters_match signature parameters result_type =
    signature.result.container == scalar
    && (signature.result.element == result_type && all_scalar signature.parameters parameters)

one_scalar_int : List ValueType → Bool
one_scalar_int (p ∷ []) = p.container == scalar && p.element == integer
one_scalar_int _ = false

-- The case of `iota_integer`.
iota_signature_matches : PrimitiveSignature → Bool
unfolding one_scalar_int
iota_signature_matches signature =
    one_scalar_int signature.parameters
    && (signature.result.container == vector && signature.result.element == integer)

-- The switch on the implementation.
matches_as : PrimitiveImplementation → PrimitiveId → PrimitiveSignature → Bool
unfolding scalar_parameters_match iota_signature_matches
matches_as Types.no_implementation id signature = false
matches_as Types.inc_integer id signature =
    id == Types.inc && scalar_parameters_match signature (integer ∷ []) integer
matches_as Types.inc_double id signature =
    id == Types.inc && scalar_parameters_match signature (double_precision ∷ []) double_precision
matches_as Types.add_integer id signature =
    id == Types.add && scalar_parameters_match signature (integer ∷ integer ∷ []) integer
matches_as Types.add_double id signature =
    id == Types.add
    && scalar_parameters_match signature (double_precision ∷ double_precision ∷ []) double_precision
matches_as Types.equals_boolean id signature =
    id == Types.equals && scalar_parameters_match signature (boolean ∷ boolean ∷ []) boolean
matches_as Types.equals_integer id signature =
    id == Types.equals && scalar_parameters_match signature (integer ∷ integer ∷ []) boolean
matches_as Types.equals_double id signature =
    id == Types.equals
    && scalar_parameters_match signature (double_precision ∷ double_precision ∷ []) boolean
matches_as Types.logical_not_boolean id signature =
    id == Types.logical_not && scalar_parameters_match signature (boolean ∷ []) boolean
matches_as Types.iota_integer id signature = id == Types.iota && iota_signature_matches signature
matches_as Types.logical_and_boolean id signature =
    id == Types.logical_and && scalar_parameters_match signature (boolean ∷ boolean ∷ []) boolean
matches_as Types.logical_or_boolean id signature =
    id == Types.logical_or && scalar_parameters_match signature (boolean ∷ boolean ∷ []) boolean
matches_as Types.not_equals_boolean id signature =
    id == Types.not_equals && scalar_parameters_match signature (boolean ∷ boolean ∷ []) boolean
matches_as Types.not_equals_integer id signature =
    id == Types.not_equals && scalar_parameters_match signature (integer ∷ integer ∷ []) boolean
matches_as Types.not_equals_double id signature =
    id == Types.not_equals
    && scalar_parameters_match signature (double_precision ∷ double_precision ∷ []) boolean
matches_as Types.odd_integer id signature =
    id == Types.odd && scalar_parameters_match signature (integer ∷ []) boolean
matches_as Types.even_integer id signature =
    id == Types.even && scalar_parameters_match signature (integer ∷ []) boolean
matches_as Types.is_positive_integer id signature =
    id == Types.is_positive && scalar_parameters_match signature (integer ∷ []) boolean
matches_as Types.is_positive_double id signature =
    id == Types.is_positive && scalar_parameters_match signature (double_precision ∷ []) boolean
matches_as Types.is_negative_integer id signature =
    id == Types.is_negative && scalar_parameters_match signature (integer ∷ []) boolean
matches_as Types.is_negative_double id signature =
    id == Types.is_negative && scalar_parameters_match signature (double_precision ∷ []) boolean
matches_as Types.less_than_integer id signature =
    id == Types.less_than && scalar_parameters_match signature (integer ∷ integer ∷ []) boolean
matches_as Types.less_than_double id signature =
    id == Types.less_than
    && scalar_parameters_match signature (double_precision ∷ double_precision ∷ []) boolean
matches_as Types.greater_than_integer id signature =
    id == Types.greater_than && scalar_parameters_match signature (integer ∷ integer ∷ []) boolean
matches_as Types.greater_than_double id signature =
    id == Types.greater_than
    && scalar_parameters_match signature (double_precision ∷ double_precision ∷ []) boolean
matches_as Types.dec_integer id signature =
    id == Types.dec && scalar_parameters_match signature (integer ∷ []) integer
matches_as Types.dec_double id signature =
    id == Types.dec && scalar_parameters_match signature (double_precision ∷ []) double_precision
matches_as Types.neg_integer id signature =
    id == Types.neg && scalar_parameters_match signature (integer ∷ []) integer
matches_as Types.neg_double id signature =
    id == Types.neg && scalar_parameters_match signature (double_precision ∷ []) double_precision
matches_as Types.abs_integer id signature =
    id == Types.abs && scalar_parameters_match signature (integer ∷ []) integer
matches_as Types.abs_double id signature =
    id == Types.abs && scalar_parameters_match signature (double_precision ∷ []) double_precision
matches_as Types.sub_integer id signature =
    id == Types.sub && scalar_parameters_match signature (integer ∷ integer ∷ []) integer
matches_as Types.sub_double id signature =
    id == Types.sub
    && scalar_parameters_match signature (double_precision ∷ double_precision ∷ []) double_precision
matches_as Types.mul_integer id signature =
    id == Types.mul && scalar_parameters_match signature (integer ∷ integer ∷ []) integer
matches_as Types.mul_double id signature =
    id == Types.mul
    && scalar_parameters_match signature (double_precision ∷ double_precision ∷ []) double_precision

unfoldable pub implementation_matches : PrimitiveId → PrimitiveSignature → Bool
unfolding matches_as
implementation_matches id signature = matches_as signature.implementation id signature
