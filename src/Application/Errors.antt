-- ===== src/Application/Errors.antt =====
-- The errors of src/application.cpp. The arguments are scalars and vectors; an element of a tuple
-- that is borrowed as an argument has no counterpart.
use bennu.Prelude.{
  ℕ, ◌+◌, Bool, false, not, ◌&&◌, ◌||◌, List, [], ◌∷◌, ◌++◌, map, Option, none, some, length,
  get_elem?, if◌then◌else◌, ◌==◌, nat_eq,
}
use bennu.Scalar.Types.{
  ScalarType, ContainerKind, scalar, integer, double_precision, scalar_type_eq, container_eq,
}
use bennu.Primitive.Types.{PrimitiveDescriptor, PrimitiveSignature, ValueType, is_elementwise}
use bennu.Error.{
  Error, ErrorKind, arity_error, type_mismatch, SourceLocation, make_error, HostAllocator,
  make_primitive_error_context, TypeErrorSignatureContext,
}
use bennu.TypeArena.Types.{TypeArena, make_scalar_type, make_vector_type}
use bennu.Value.{Value, scalar_value, vector_value, container}

unfoldable pub primitive_error :
    HostAllocator → ErrorKind → PrimitiveDescriptor → SourceLocation → Error
unfolding make_error make_primitive_error_context
primitive_error host kind descriptor location = record (make_error kind location) {
  primitive = make_primitive_error_context host descriptor.name (some descriptor.id);
}

abbrev pub contains : List ℕ → ℕ → Bool
contains [] n = false
contains (x ∷ xs) n = (x == n) || contains xs n

-- The loop over the signatures: each arity that is new goes to the end.
unfoldable pub accepted_arities : List PrimitiveSignature → List ℕ → List ℕ
accepted_arities [] accepted = accepted
accepted_arities (s ∷ signatures) accepted =
    let arity = length s.parameters in
    accepted_arities signatures
      (if contains accepted arity then accepted else accepted ++ arity ∷ [])

unfoldable pub arity_failure : HostAllocator → PrimitiveDescriptor → ℕ → SourceLocation → Error
unfolding primitive_error accepted_arities
arity_failure host descriptor supplied location =
    record (primitive_error host arity_error descriptor location) {
      arity =
          some
            (record { supplied = supplied; accepted = accepted_arities descriptor.signatures [] });
    }

unfoldable pub value_scalar_type : Value → ScalarType
value_scalar_type (scalar_value s) = s.kind
value_scalar_type (vector_value v) = v.element_type

abbrev pub accepts_element : ScalarType → ScalarType → Bool
accepts_element actual parameter =
    actual == parameter || (actual == integer && parameter == double_precision)

-- An index out of range is not reached, since the count of the parameters is compared first.
unfoldable pub type_accepts :
    PrimitiveDescriptor → PrimitiveSignature → ℕ → ContainerKind → ScalarType → Bool
type_accepts descriptor signature argument_index container actual_type =
    elim (get_elem? signature.parameters argument_index) [
      | none ↦ false
      | some parameter ↦
          if not (is_elementwise descriptor.lifting)
          then parameter.container == container && parameter.element == actual_type
          else accepts_element actual_type parameter.element
    ]

unfoldable pub value_type : Value → TypeArena
unfolding make_scalar_type make_vector_type
value_type (scalar_value s) = make_scalar_type s.kind
value_type (vector_value v) = make_vector_type v.element_type

unfoldable pub parameter_type : ValueType → TypeArena
unfolding make_scalar_type make_vector_type
parameter_type p =
    if p.container == scalar then make_scalar_type p.element else make_vector_type p.element

unfoldable pub of_arity : List PrimitiveSignature → ℕ → List PrimitiveSignature
of_arity [] arity = []
of_arity (s ∷ signatures) arity =
    let rest = of_arity signatures arity in if length s.parameters == arity then s ∷ rest else rest

unfoldable pub still_accepting :
    PrimitiveDescriptor → List PrimitiveSignature → ℕ → Value → List PrimitiveSignature
unfolding type_accepts container value_scalar_type
still_accepting descriptor [] index argument = []
still_accepting descriptor (s ∷ candidates) index argument =
    let rest = still_accepting descriptor candidates index argument in
    if type_accepts descriptor s index (container argument) (value_scalar_type argument)
    then s ∷ rest
    else rest

-- The first argument that leaves no candidate.
unfoldable pub refused_position :
    PrimitiveDescriptor → List PrimitiveSignature → ℕ → List Value → Option ℕ
unfolding still_accepting
refused_position descriptor candidates index [] = none
refused_position descriptor [] index (a ∷ arguments) = none
refused_position descriptor (c ∷ candidates) index (a ∷ arguments) =
    elim (still_accepting descriptor (c ∷ candidates) index a) [
      | [] ↦ some (index + 1)
      | d ∷ remaining ↦ refused_position descriptor (d ∷ remaining) (index + 1) arguments
    ]

unfoldable pub accepted_signature : PrimitiveSignature → TypeErrorSignatureContext
unfolding parameter_type
accepted_signature s = record {
  parameters = map parameter_type s.parameters;
  result = parameter_type s.result;
}

unfoldable pub type_error :
    HostAllocator → PrimitiveDescriptor → List Value → SourceLocation → Error
unfolding primitive_error of_arity refused_position accepted_signature value_type
type_error host descriptor arguments location =
    let candidates = of_arity descriptor.signatures (length arguments) in
    record (primitive_error host type_mismatch descriptor location) {
      argument_position = refused_position descriptor candidates 0 arguments;
      type = some (record {
        actual_arguments = map value_type arguments;
        accepted_signatures = map accepted_signature candidates;
      });
    }
