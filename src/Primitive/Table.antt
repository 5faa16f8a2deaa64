-- ===== src/Primitive/Table.antt =====
-- The production table of src/primitive.cpp and the two lookups in it.
use bennu.Prelude.{ℕ, List, [], ◌∷◌, Option, none, some, Bytes, codes, ◌==◌, if◌then◌else◌}
use bennu.Prelude.{bytes_eq}
use bennu.Scalar.Types.{boolean, integer, double_precision, scalar, vector}
use bennu.Primitive.Types.{
  PrimitiveId, PrimitiveImplementation, ValueType, PrimitiveSignature, PrimitiveDescriptor,
  LiftingMode, unlifted, elementwise, id_eq,
}
use bennu.Primitive.Types

abbrev pub scalar_bool : ValueType
scalar_bool = record { container = scalar; element = boolean }

abbrev pub scalar_int : ValueType
scalar_int = record { container = scalar; element = integer }

abbrev pub scalar_double : ValueType
scalar_double = record { container = scalar; element = double_precision }

abbrev pub vector_int : ValueType
vector_int = record { container = vector; element = integer }

abbrev pub int_parameter : List ValueType
int_parameter = scalar_int ∷ []

abbrev pub double_parameter : List ValueType
double_parameter = scalar_double ∷ []

abbrev pub bool_parameter : List ValueType
bool_parameter = scalar_bool ∷ []

abbrev pub int_parameters : List ValueType
int_parameters = scalar_int ∷ scalar_int ∷ []

abbrev pub double_parameters : List ValueType
double_parameters = scalar_double ∷ scalar_double ∷ []

abbrev pub bool_parameters : List ValueType
bool_parameters = scalar_bool ∷ scalar_bool ∷ []

-- No two signatures of the table are one object: each gets an address of its own.
abbrev signature : ℕ → List ValueType → ValueType → PrimitiveImplementation → PrimitiveSignature
signature address parameters result implementation = record {
  parameters = parameters;
  result = result;
  implementation = implementation;
  address = address;
}

abbrev pub inc_signatures : List PrimitiveSignature
inc_signatures =
    signature 0 int_parameter scalar_int Types.inc_integer
    ∷ signature 1 double_parameter scalar_double Types.inc_double
    ∷ []

abbrev pub add_signatures : List PrimitiveSignature
add_signatures =
    signature 2 int_parameters scalar_int Types.add_integer
    ∷ signature 3 double_parameters scalar_double Types.add_double
    ∷ []

abbrev pub dec_signatures : List PrimitiveSignature
dec_signatures =
    signature 4 int_parameter scalar_int Types.dec_integer
    ∷ signature 5 double_parameter scalar_double Types.dec_double
    ∷ []

abbrev pub neg_signatures : List PrimitiveSignature
neg_signatures =
    signature 6 int_parameter scalar_int Types.neg_integer
    ∷ signature 7 double_parameter scalar_double Types.neg_double
    ∷ []

abbrev pub abs_signatures : List PrimitiveSignature
abs_signatures =
    signature 8 int_parameter scalar_int Types.abs_integer
    ∷ signature 9 double_parameter scalar_double Types.abs_double
    ∷ []

abbrev pub sub_signatures : List PrimitiveSignature
sub_signatures =
    signature 10 int_parameters scalar_int Types.sub_integer
    ∷ signature 11 double_parameters scalar_double Types.sub_double
    ∷ []

abbrev pub mul_signatures : List PrimitiveSignature
mul_signatures =
    signature 12 int_parameters scalar_int Types.mul_integer
    ∷ signature 13 double_parameters scalar_double Types.mul_double
    ∷ []

abbrev pub equals_signatures : List PrimitiveSignature
equals_signatures =
    signature 14 bool_parameters scalar_bool Types.equals_boolean
    ∷ signature 15 int_parameters scalar_bool Types.equals_integer
    ∷ signature 16 double_parameters scalar_bool Types.equals_double
    ∷ []

abbrev pub not_signatures : List PrimitiveSignature
not_signatures = signature 17 bool_parameter scalar_bool Types.logical_not_boolean ∷ []

abbrev pub iota_signatures : List PrimitiveSignature
iota_signatures = signature 18 int_parameter vector_int Types.iota_integer ∷ []

abbrev pub and_signatures : List PrimitiveSignature
and_signatures = signature 19 bool_parameters scalar_bool Types.logical_and_boolean ∷ []

abbrev pub or_signatures : List PrimitiveSignature
or_signatures = signature 20 bool_parameters scalar_bool Types.logical_or_boolean ∷ []

abbrev pub not_equals_signatures : List PrimitiveSignature
not_equals_signatures =
    signature 21 bool_parameters scalar_bool Types.not_equals_boolean
    ∷ signature 22 int_parameters scalar_bool Types.not_equals_integer
    ∷ signature 23 double_parameters scalar_bool Types.not_equals_double
    ∷ []

abbrev pub odd_signatures : List PrimitiveSignature
odd_signatures = signature 24 int_parameter scalar_bool Types.odd_integer ∷ []

abbrev pub even_signatures : List PrimitiveSignature
even_signatures = signature 25 int_parameter scalar_bool Types.even_integer ∷ []

abbrev pub is_positive_signatures : List PrimitiveSignature
is_positive_signatures =
    signature 26 int_parameter scalar_bool Types.is_positive_integer
    ∷ signature 27 double_parameter scalar_bool Types.is_positive_double
    ∷ []

abbrev pub is_negative_signatures : List PrimitiveSignature
is_negative_signatures =
    signature 28 int_parameter scalar_bool Types.is_negative_integer
    ∷ signature 29 double_parameter scalar_bool Types.is_negative_double
    ∷ []

abbrev pub less_than_signatures : List PrimitiveSignature
less_than_signatures =
    signature 30 int_parameters scalar_bool Types.less_than_integer
    ∷ signature 31 double_parameters scalar_bool Types.less_than_double
    ∷ []

abbrev pub greater_than_signatures : List PrimitiveSignature
greater_than_signatures =
    signature 32 int_parameters scalar_bool Types.greater_than_integer
    ∷ signature 33 double_parameters scalar_bool Types.greater_than_double
    ∷ []

abbrev descriptor :
    PrimitiveId → Bytes → LiftingMode → List PrimitiveSignature → PrimitiveDescriptor
descriptor id name lifting signatures = record {
  id = id;
  name = name;
  lifting = lifting;
  signatures = signatures;
}

unfoldable pub production_descriptors : List PrimitiveDescriptor
production_descriptors =
    descriptor Types.inc (codes "inc") elementwise inc_signatures
    ∷ descriptor Types.add (codes "add") elementwise add_signatures
    ∷ descriptor Types.equals (codes "equals") elementwise equals_signatures
    ∷ descriptor Types.logical_not (codes "not") elementwise not_signatures
    ∷ descriptor Types.iota (codes "iota") unlifted iota_signatures
    ∷ descriptor Types.logical_and (codes "and") elementwise and_signatures
    ∷ descriptor Types.logical_or (codes "or") elementwise or_signatures
    ∷ descriptor Types.not_equals (codes "not_equals") elementwise not_equals_signatures
    ∷ descriptor Types.odd (codes "odd") elementwise odd_signatures
    ∷ descriptor Types.even (codes "even") elementwise even_signatures
    ∷ descriptor Types.is_positive (codes "is_positive") elementwise is_positive_signatures
    ∷ descriptor Types.is_negative (codes "is_negative") elementwise is_negative_signatures
    ∷ descriptor Types.less_than (codes "less_than") elementwise less_than_signatures
    ∷ descriptor Types.greater_than (codes "greater_than") elementwise greater_than_signatures
    ∷ descriptor Types.dec (codes "dec") elementwise dec_signatures
    ∷ descriptor Types.neg (codes "neg") elementwise neg_signatures
    ∷ descriptor Types.abs (codes "abs") elementwise abs_signatures
    ∷ descriptor Types.sub (codes "sub") elementwise sub_signatures
    ∷ descriptor Types.mul (codes "mul") elementwise mul_signatures
    ∷ []

-- The loop of `find_primitive` by identifier.
unfoldable pub find_id : PrimitiveId → List PrimitiveDescriptor → Option PrimitiveDescriptor
find_id id [] = none
find_id id (d ∷ ds) = if d.id == id then some d else find_id id ds

-- The loop of `find_primitive` by name.
unfoldable pub find_name : Bytes → List PrimitiveDescriptor → Option PrimitiveDescriptor
find_name name [] = none
find_name name (d ∷ ds) = if d.name == name then some d else find_name name ds

unfoldable pub find_primitive_by_id : PrimitiveId → Option PrimitiveDescriptor
unfolding find_id production_descriptors
find_primitive_by_id id = find_id id production_descriptors

unfoldable pub find_primitive : Bytes → Option PrimitiveDescriptor
unfolding find_name production_descriptors
find_primitive name = find_name name production_descriptors
