-- ===== src/Tests/Primitives.antt =====
-- The production table of src/primitive.cpp, its kernels and the comparisons of doubles.
use bennu.Prelude.{
  false, ℕ, ◌≡◌, ◌≢◌, ◌↔◌, ◌⊎◌, if◌then◌else◌, refl, true, List, [], ◌∷◌, some, arith, codes,
  get_elem?, Bool, ap,
}
use bennu.Prelude.Int.{pos, int64_max, is_int64, ◌<ℤ◌, ◌+ℤ◌}
use bennu.Scalar.Types.{ScalarType, integer, double_precision, ScalarValue}
use bennu.Scalar.Binary64.{
  FloatingPointUnit, valid_scalar, binary64_less_than, binary64_equal, binary64_is_positive,
  binary64_is_negative,
}
use bennu.Scalar.Order.{
  IsNumber, rank, binary64_less_than_iff, binary64_equal_iff, binary64_sign_iff,
}
use bennu.Primitive.Types.{PrimitiveDescriptor, PrimitiveSignature, is_elementwise}
use bennu.Primitive.Types
use bennu.Primitive.Table.{
  production_descriptors, find_primitive, add_signatures, scalar_int, int_parameters,
}
use bennu.Primitive.Implementation.{implementation_matches}
use bennu.Primitive.Ambiguity.{
  assigned_type, assignment_cost, count_cost, count_signature, count_signatures,
  has_ambiguous_assignment,
}
use bennu.Primitive.Select.{
  conversion_cost, add_costs, consider, select_from, select_primitive_signature, success,
}
use bennu.Primitive.Select.Cheapest.{cost_at}
use bennu.Primitive.Select.Best.{Explains, select_primitive_signature-Explains}
use bennu.Primitive.Validate.{
  same_value_type, same_parameters, same_signature, check_duplicates, check_signature_duplicates,
  all_scalar_containers, is_empty, check_signature, check_signatures, already_checked,
  check_ambiguity, check_implementations, check_descriptor, check_descriptors,
  production_primitive_table_validation, valid_table, PrimitiveTableValidationResult,
}
use bennu.Primitive.Validate.Sound.{AllAccepted, validate_primitive_table-AllAccepted}
use bennu.Primitive.Validate.Selection.{select_primitive_signature-valid_table}
use bennu.Primitive.Kernel.{
  may_invoke, invoke_scalar_kernel, int_scalar, overflow_result, successful_kernel,
  invalid_invocation, signature_belongs_to, operands_match,
}
use bennu.Primitive.Kernel.Result.{Delivers, invoke_scalar_kernel-Delivers}
use bennu.Primitive.Kernel.Exact.{invoke_scalar_kernel-exact}
use bennu.Error.{HostAllocator, start_location}

abbrev is_ok_of : PrimitiveTableValidationResult → Bool
is_ok_of r = r.is_ok

production_table_valid : production_primitive_table_validation ≡ valid_table
unfolding production_primitive_table_validation check_descriptors check_descriptor check_duplicates
    check_signatures check_signature check_signature_duplicates same_signature same_value_type
    same_parameters all_scalar_containers is_empty check_ambiguity already_checked
    check_implementations implementation_matches has_ambiguous_assignment count_signatures
    count_signature count_cost assignment_cost assigned_type conversion_cost
production_table_valid = refl

abbrev add_descriptor : PrimitiveDescriptor
add_descriptor = record {
  id = Types.add;
  name = codes "add";
  lifting = Types.elementwise;
  signatures = add_signatures;
}

add_is_second : get_elem? production_descriptors 1 ≡ some add_descriptor
unfolding production_descriptors
add_is_second = refl

find_add : find_primitive (codes "add") ≡ some add_descriptor
unfolding find_primitive
find_add = refl

abbrev mixed : List ScalarType
mixed = integer ∷ double_precision ∷ []

select_mixed : (select_primitive_signature add_descriptor mixed).signature_index ≡ 1
unfolding select_primitive_signature select_from consider add_costs conversion_cost
select_mixed = refl

select_primitive_signature-Explains_example :
    Explains mixed add_signatures
      (select_primitive_signature add_descriptor mixed).status
      (select_primitive_signature add_descriptor mixed)
select_primitive_signature-Explains_example =
    select_primitive_signature-Explains add_descriptor mixed (omega arith)

validate_primitive_table-AllAccepted_example :
    (production_descriptors ≢ []) × AllAccepted [] production_descriptors
unfolding production_primitive_table_validation
validate_primitive_table-AllAccepted_example =
    validate_primitive_table-AllAccepted production_descriptors (ap is_ok_of production_table_valid)

select_primitive_signature-valid_table_example :
    ((select_primitive_signature add_descriptor mixed).status ≡ success)
    ↔ ((j : ℕ) × (c : ℕ) × (cost_at mixed add_signatures j ≡ some c))
unfolding production_primitive_table_validation
select_primitive_signature-valid_table_example =
    select_primitive_signature-valid_table production_descriptors 1 add_descriptor mixed
      (ap is_ok_of production_table_valid) add_is_second refl (omega arith)

binary64_less_than_iff_example :
    (binary64_less_than 0x8000000000000000 0x3ff0000000000000 ≡ true) ↔ (
      IsNumber 0x8000000000000000
      × IsNumber 0x3ff0000000000000
      × (rank 0x8000000000000000 <ℤ rank 0x3ff0000000000000))
binary64_less_than_iff_example =
    binary64_less_than_iff 0x8000000000000000 0x3ff0000000000000 (omega arith) (omega arith)

binary64_equal_iff_example :
    (binary64_equal 0x8000000000000000 0 ≡ true)
    ↔ (IsNumber 0x8000000000000000 × IsNumber 0 × (rank 0x8000000000000000 ≡ rank 0))
binary64_equal_iff_example = binary64_equal_iff 0x8000000000000000 0 (omega arith) (omega arith)

binary64_sign_iff_example :
    ((binary64_is_positive 0x8000000000000001 ≡ true)
      ↔ (IsNumber 0x8000000000000001 × (pos 0 <ℤ rank 0x8000000000000001)))
    × ((binary64_is_negative 0x8000000000000001 ≡ true)
        ↔ (IsNumber 0x8000000000000001 × (rank 0x8000000000000001 <ℤ pos 0)))
binary64_sign_iff_example = binary64_sign_iff 0x8000000000000001 (omega arith)

abbrev some_unit : FloatingPointUnit
some_unit = record { run = λ operation left right. left }

abbrev some_host : HostAllocator
some_host = record { grants = λ bytes. true }

-- The first signature of `add`.
abbrev add_int : PrimitiveSignature
add_int = record {
  parameters = int_parameters;
  result = scalar_int;
  implementation = Types.add_integer;
  address = 2;
}

abbrev near_top : List ScalarValue
near_top = int_scalar int64_max ∷ int_scalar (pos 1) ∷ []

may_add : may_invoke add_descriptor add_int near_top ≡ true
unfolding may_invoke signature_belongs_to implementation_matches operands_match valid_scalar
may_add = refl

invoke_scalar_kernel-Delivers_example :
    let r =
      invoke_scalar_kernel some_unit some_host add_descriptor add_int near_top start_location in
    ((may_invoke add_descriptor add_int near_top ≡ true) × Delivers add_int r)
    ⊎ ((may_invoke add_descriptor add_int near_top ≡ false) × (r.status ≡ invalid_invocation))
invoke_scalar_kernel-Delivers_example =
    invoke_scalar_kernel-Delivers some_unit some_host start_location add_descriptor add_int near_top

invoke_scalar_kernel-exact_example :
    invoke_scalar_kernel some_unit some_host add_descriptor add_int near_top start_location ≡ (
      if is_int64 (int64_max +ℤ pos 1)
      then successful_kernel (int_scalar (int64_max +ℤ pos 1))
      else overflow_result some_host add_descriptor add_int near_top start_location)
invoke_scalar_kernel-exact_example =
    invoke_scalar_kernel-exact some_unit some_host add_descriptor add_int near_top start_location
      (int64_max +ℤ pos 1) may_add (ground arith) refl
