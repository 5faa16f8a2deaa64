-- ===== src/Error.antt =====
-- Errors: include/bennu/error.hpp and src/error.cpp. Of the fields of `Error` those stand here that
-- the modelled code sets; the texts and the source spans are not modelled.
use bennu.Prelude.{
  ℕ, Bool, ◌||◌, List, Option, none, some, Bytes, length, ◌==◌, nat_eq, if◌then◌else◌, ◌≡◌, refl,
  ◌⊎◌, inl, inr,
}
use bennu.Scalar.Types.{ScalarType, ScalarValue}
use bennu.Primitive.Types.{PrimitiveId}
use bennu.TypeArena.Types.{TypeArena}
use bennu.Value.{ValueInvariant}

pub record SourceLocation : Type 0 where
  pub offset : ℕ
  pub line : ℕ
  pub column : ℕ

pub data ErrorKind : Type 0 where
  no_error invalid_byte malformed_literal literal_range_error syntax_error unknown_name : ErrorKind
  invalid_parameter_declaration type_mismatch empty_expression arity_error : ErrorKind
  argument_error shape_mismatch invalid_execution_profile profile_error invalid_value : ErrorKind
  resource_error domain_error invalid_primitive_table formatting_error : ErrorKind

pub record PrimitiveErrorContext : Type 0 where
  pub name : Bytes
  pub id : Option PrimitiveId

pub data DomainErrorReason : Type 0 where
  integer_overflow : DomainErrorReason

pub record ScalarSignatureContext : Type 0 where
  pub parameter_types : List ScalarType
  pub result_type : ScalarType

pub record DomainErrorContext : Type 0 where
  pub reason : DomainErrorReason
  pub signature : ScalarSignatureContext
  pub operands : List ScalarValue

pub record ShapeErrorContext : Type 0 where
  pub expected : List ℕ
  pub actual : List ℕ

pub record ArityErrorContext : Type 0 where
  pub supplied : ℕ
  pub accepted : List ℕ

pub data ResourceErrorReason : Type 0 where
  size_overflow profile_limit allocation_unavailable : ResourceErrorReason

pub data ResourceLimitKind : Type 0 where
  max_vector_bytes max_tuple_table_bytes max_live_evaluation_bytes : ResourceLimitKind
  max_work_units : ResourceLimitKind

pub record ResourceErrorContext : Type 0 where
  pub reason : ResourceErrorReason
  pub requested_elements : Option ℕ
  pub requested_bytes : Option ℕ
  pub profile : Bytes
  pub limit_kind : Option ResourceLimitKind
  pub configured_limit : Option ℕ
  pub usage_before : Option ℕ
  pub refused_charge : Option ℕ
  pub allocation_ordinal : Option ℕ

pub record TypeErrorSignatureContext : Type 0 where
  pub parameters : List TypeArena
  pub result : TypeArena

pub record TypeErrorContext : Type 0 where
  pub actual_arguments : List TypeArena
  pub accepted_signatures : List TypeErrorSignatureContext

-- `value` is the invariant of the source's `ValueErrorContext`.
pub record Error : Type 0 where
  pub kind : ErrorKind
  pub location : SourceLocation
  pub primitive : Option PrimitiveErrorContext
  pub arity : Option ArityErrorContext
  pub argument_position : Option ℕ
  pub shape : Option ShapeErrorContext
  pub element_index : Option ℕ
  pub domain : Option DomainErrorContext
  pub resource : Option ResourceErrorContext
  pub type : Option TypeErrorContext
  pub value : Option ValueInvariant

unfoldable pub make_error : ErrorKind → SourceLocation → Error
make_error kind location = record {
  kind = kind;
  location = location;
  primitive = none;
  arity = none;
  argument_position = none;
  shape = none;
  element_index = none;
  domain = none;
  resource = none;
  type = none;
  value = none;
}

abbrev pub start_location : SourceLocation
start_location = record { offset = 0; line = 1; column = 1 }

-- Whether the allocator of the host grants an array of this many bytes.
pub record HostAllocator : Type 0 where
  pub grants : ℕ → Bool

-- A name is copied into an array of the host; no array is needed for an empty name.
unfoldable pub make_primitive_error_context :
    HostAllocator → Bytes → Option PrimitiveId → Option PrimitiveErrorContext
make_primitive_error_context host name id =
    if length name == 0 || host.grants (length name)
    then some (record { name = name; id = id })
    else none

-- What a fallible operation returns: the fields `ok`, `value` and `error` of its result record.
pub data Outcome {ℓ} (A : Type ℓ) : Type ℓ where
  success : A → Outcome A
  failure : Error → Outcome A

pub Outcome-cases {ℓ} :
    {A : Type ℓ} (o : Outcome A)
    → ((a : A) × (o ≡ success a)) ⊎ ((error : Error) × (o ≡ failure error))
Outcome-cases (success a) = inl (a, refl)
Outcome-cases (failure error) = inr (error, refl)
