-- ===== src/Primitive/Validate.antt =====
-- `validate_primitive_table` of src/primitive.cpp. A check that may return early gives the result
-- it returns, or `none` where the code goes on. The modules below hold proofs.
pub mod Refusal
pub mod Signatures
pub mod Unambiguous
pub mod Sound
pub mod Selection
use bennu.Prelude.{
  ℕ, zero, suc, ◌+◌, Bool, true, false, not, ◌&&◌, ◌||◌, List, [], ◌∷◌, ◌++◌, Option, none, some,
  length, codes, if◌then◌else◌, ◌==◌, nat_eq, bytes_eq,
}
use bennu.Scalar.Types.{ScalarType, scalar, scalar_type_eq, container_eq}
use bennu.Primitive.Types.{
  ValueType, PrimitiveSignature, PrimitiveDescriptor, is_elementwise, id_eq,
}
use bennu.Primitive.Table.{production_descriptors}
use bennu.Primitive.Implementation.{implementation_matches}
use bennu.Primitive.Ambiguity.{has_ambiguous_assignment}

pub data PrimitiveTableError : Type 0 where
  no_table_error empty_table duplicate_id duplicate_name reserved_name : PrimitiveTableError
  missing_signature duplicate_signature zero_arity missing_implementation : PrimitiveTableError
  elementwise_non_scalar_signature equal_cost_ambiguity : PrimitiveTableError

pub record PrimitiveTableValidationResult : Type 0 where
  pub is_ok : Bool
  pub error : PrimitiveTableError
  pub descriptor_index : ℕ
  pub signature_index : ℕ
  pub conflicting_descriptor_index : ℕ
  pub conflicting_signature_index : ℕ

abbrev pub valid_table : PrimitiveTableValidationResult
valid_table = record {
  is_ok = true;
  error = no_table_error;
  descriptor_index = 0;
  signature_index = 0;
  conflicting_descriptor_index = 0;
  conflicting_signature_index = 0;
}

abbrev pub invalid_table : PrimitiveTableError → ℕ → ℕ → ℕ → ℕ → PrimitiveTableValidationResult
invalid_table error d s cd cs = record {
  is_ok = false;
  error = error;
  descriptor_index = d;
  signature_index = s;
  conflicting_descriptor_index = cd;
  conflicting_signature_index = cs;
}

abbrev pub Check : Type 0
Check = Option PrimitiveTableValidationResult

-- One check after another: the first that returns ends the function.
infixr 20 ◌then_check◌
abbrev pub ◌then_check◌ : Check → Check → Check
◌then_check◌ none next = next
◌then_check◌ (some r) next = some r

abbrev pub fail_if : Bool → PrimitiveTableValidationResult → Check
fail_if true r = some r
fail_if false r = none

unfoldable pub same_value_type : ValueType → ValueType → Bool
same_value_type left right = left.container == right.container && left.element == right.element

unfoldable pub same_parameters : List ValueType → List ValueType → Bool
same_parameters [] [] = true
same_parameters (l ∷ ls) (r ∷ rs) = same_value_type l r && same_parameters ls rs
same_parameters _ _ = false

unfoldable pub same_signature : PrimitiveSignature → PrimitiveSignature → Bool
same_signature left right =
    same_value_type left.result right.result && same_parameters left.parameters right.parameters

-- The loop over the descriptors before `descriptor`.
unfoldable pub check_duplicates : PrimitiveDescriptor → ℕ → ℕ → List PrimitiveDescriptor → Check
check_duplicates descriptor i previous_index [] = none
check_duplicates descriptor i previous_index (previous ∷ rest) =
    fail_if (previous.id == descriptor.id) (invalid_table duplicate_id i 0 previous_index 0)
    then_check fail_if (previous.name == descriptor.name)
        (invalid_table duplicate_name i 0 previous_index 0)
    then_check check_duplicates descriptor i (previous_index + 1) rest

-- The loop over the signatures before `signature`.
unfoldable pub check_signature_duplicates :
    PrimitiveSignature → ℕ → ℕ → ℕ → List PrimitiveSignature → Check
check_signature_duplicates signature i s previous_index [] = none
check_signature_duplicates signature i s previous_index (previous ∷ rest) =
    fail_if (same_signature previous signature)
      (invalid_table duplicate_signature i s i previous_index)
    then_check check_signature_duplicates signature i s (previous_index + 1) rest

unfoldable pub all_scalar_containers : List ValueType → Bool
all_scalar_containers [] = true
all_scalar_containers (p ∷ ps) = p.container == scalar && all_scalar_containers ps

unfoldable pub is_empty {ℓ} : {A : Type ℓ} → List A → Bool
is_empty [] = true
is_empty (x ∷ xs) = false

-- The body of the loop over the signatures; `before` holds the earlier ones.
unfoldable pub check_signature : Bool → ℕ → ℕ → List PrimitiveSignature → PrimitiveSignature → Check
check_signature elementwise i s before signature =
    check_signature_duplicates signature i s 0 before
    then_check fail_if (is_empty signature.parameters) (invalid_table zero_arity i s i s)
    then_check fail_if
        (elementwise
          && (not (signature.result.container == scalar)
              || not (all_scalar_containers signature.parameters)))
        (invalid_table elementwise_non_scalar_signature i s i s)

unfoldable pub check_signatures :
    Bool → ℕ → ℕ → List PrimitiveSignature → List PrimitiveSignature → Check
check_signatures elementwise i s before [] = none
check_signatures elementwise i s before (signature ∷ rest) =
    check_signature elementwise i s before signature
    then_check check_signatures elementwise i (s + 1) (before ++ (signature ∷ [])) rest

-- Whether an earlier signature has this arity.
unfoldable pub already_checked : ℕ → List PrimitiveSignature → Bool
already_checked arity [] = false
already_checked arity (previous ∷ rest) =
    length previous.parameters == arity || already_checked arity rest

unfoldable pub check_ambiguity :
    PrimitiveDescriptor → ℕ → ℕ → List PrimitiveSignature → List PrimitiveSignature → Check
check_ambiguity descriptor i s before [] = none
check_ambiguity descriptor i s before (signature ∷ rest) =
    let arity = length signature.parameters in
    fail_if
      (not (already_checked arity before) && has_ambiguous_assignment descriptor arity arity 0 [])
      (invalid_table equal_cost_ambiguity i s i s)
    then_check check_ambiguity descriptor i (s + 1) (before ++ (signature ∷ [])) rest

unfoldable pub check_implementations : PrimitiveDescriptor → ℕ → ℕ → List PrimitiveSignature → Check
check_implementations descriptor i s [] = none
check_implementations descriptor i s (signature ∷ rest) =
    fail_if (not (implementation_matches descriptor.id signature))
      (invalid_table missing_implementation i s i s)
    then_check check_implementations descriptor i (s + 1) rest

-- The body of the loop over the descriptors; `before` holds the earlier ones.
unfoldable pub check_descriptor : ℕ → List PrimitiveDescriptor → PrimitiveDescriptor → Check
check_descriptor i before descriptor =
    let elementwise = is_elementwise descriptor.lifting in
    fail_if (descriptor.name == codes "parameters") (invalid_table reserved_name i 0 i 0)
    then_check check_duplicates descriptor i 0 before
    then_check fail_if (is_empty descriptor.signatures) (invalid_table missing_signature i 0 i 0)
    then_check check_signatures elementwise i 0 [] descriptor.signatures
    then_check (if elementwise
        then check_ambiguity descriptor i 0 [] descriptor.signatures
        else none)
    then_check check_implementations descriptor i 0 descriptor.signatures

unfoldable pub check_descriptors : ℕ → List PrimitiveDescriptor → List PrimitiveDescriptor → Check
check_descriptors i before [] = none
check_descriptors i before (descriptor ∷ rest) =
    check_descriptor i before descriptor
    then_check check_descriptors (i + 1) (before ++ (descriptor ∷ [])) rest

unfoldable pub validate_primitive_table : List PrimitiveDescriptor → PrimitiveTableValidationResult
validate_primitive_table [] = invalid_table empty_table 0 0 0 0
validate_primitive_table (d ∷ ds) = elim (check_descriptors 0 [] (d ∷ ds)) [
  | none ↦ valid_table
  | some r ↦ r
]

unfoldable pub production_primitive_table_validation : PrimitiveTableValidationResult
unfolding validate_primitive_table production_descriptors
production_primitive_table_validation = validate_primitive_table production_descriptors
