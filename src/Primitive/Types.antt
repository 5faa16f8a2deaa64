-- ===== src/Primitive/Types.antt =====
-- The enumerations and records of include/bennu/primitive_id.hpp and include/bennu/primitive.hpp.
-- An array with its count is a list; a null array that is given a count above 0 is not modelled.
use bennu.Prelude.{
  ℕ, Bool, true, false, ◌≡◌, ◌↔◌, refl, ap, sym, ◌∙◌, List, Bytes, Eq, ◌==◌, nat_eq, eqb,
  if◌then◌else◌,
}
use bennu.Scalar.Types.{ScalarType, ContainerKind, scalar_type_eq, container_eq}

-- The values are those that the source gives its enumerators.
pub data PrimitiveId : Type 0 where
  inc add equals logical_not iota : PrimitiveId
  logical_and logical_or not_equals odd even : PrimitiveId
  is_positive is_negative less_than greater_than dec : PrimitiveId
  neg abs sub mul : PrimitiveId

abbrev pub id_value : PrimitiveId → ℕ
id_value inc = 0
id_value add = 1
id_value equals = 2
id_value logical_not = 3
id_value iota = 4
id_value logical_and = 5
id_value logical_or = 6
id_value not_equals = 7
id_value odd = 8
id_value even = 9
id_value is_positive = 10
id_value is_negative = 11
id_value less_than = 12
id_value greater_than = 13
id_value dec = 14
id_value neg = 15
id_value abs = 16
id_value sub = 17
id_value mul = 18

id_of_value : ℕ → PrimitiveId
id_of_value n =
    if n == 0
    then inc
    else if n == 1
    then add
    else if n == 2
    then equals
    else if n == 3
    then logical_not
    else if n == 4
    then iota
    else if n == 5
    then logical_and
    else if n == 6
    then logical_or
    else if n == 7
    then not_equals
    else if n == 8
    then odd
    else if n == 9
    then even
    else if n == 10
    then is_positive
    else if n == 11
    then is_negative
    else if n == 12
    then less_than
    else if n == 13
    then greater_than
    else if n == 14
    then dec
    else if n == 15
    then neg
    else if n == 16
    then abs
    else if n == 17
    then sub
    else mul

id_of_value-id_value : (x : PrimitiveId) → id_of_value (id_value x) ≡ x
unfolding id_of_value
id_of_value-id_value inc = refl
id_of_value-id_value add = refl
id_of_value-id_value equals = refl
id_of_value-id_value logical_not = refl
id_of_value-id_value iota = refl
id_of_value-id_value logical_and = refl
id_of_value-id_value logical_or = refl
id_of_value-id_value not_equals = refl
id_of_value-id_value odd = refl
id_of_value-id_value even = refl
id_of_value-id_value is_positive = refl
id_of_value-id_value is_negative = refl
id_of_value-id_value less_than = refl
id_of_value-id_value greater_than = refl
id_of_value-id_value dec = refl
id_of_value-id_value neg = refl
id_of_value-id_value abs = refl
id_of_value-id_value sub = refl
id_of_value-id_value mul = refl

abbrev pub same_id : PrimitiveId → PrimitiveId → Bool
same_id a b = eqb (id_value a) (id_value b)

pub same_id_iff : (a b : PrimitiveId) → (same_id a b ≡ true) ↔ (a ≡ b)
same_id_iff a b = (
  λ h.
      sym (id_of_value-id_value a)
      ∙ ap id_of_value ((nat_eq.test_iff _ _).0 h)
      ∙ id_of_value-id_value b,
  λ e. (nat_eq.test_iff _ _).1 (ap id_value e),
)

instance abbrev pub id_eq : Eq PrimitiveId
id_eq = record { test = same_id; test_iff = same_id_iff }

-- `none` of the source is `no_implementation`.
pub data PrimitiveImplementation : Type 0 where
  no_implementation inc_integer inc_double add_integer : PrimitiveImplementation
  add_double equals_boolean equals_integer equals_double : PrimitiveImplementation
  logical_not_boolean iota_integer logical_and_boolean logical_or_boolean : PrimitiveImplementation
  not_equals_boolean not_equals_integer not_equals_double odd_integer : PrimitiveImplementation
  even_integer is_positive_integer is_positive_double is_negative_integer : PrimitiveImplementation
  is_negative_double less_than_integer less_than_double greater_than_integer :
      PrimitiveImplementation
  greater_than_double dec_integer dec_double neg_integer : PrimitiveImplementation
  neg_double abs_integer abs_double sub_integer : PrimitiveImplementation
  sub_double mul_integer mul_double : PrimitiveImplementation

abbrev pub implementation_value : PrimitiveImplementation → ℕ
implementation_value no_implementation = 0
implementation_value inc_integer = 1
implementation_value inc_double = 2
implementation_value add_integer = 3
implementation_value add_double = 4
implementation_value equals_boolean = 5
implementation_value equals_integer = 6
implementation_value equals_double = 7
implementation_value logical_not_boolean = 8
implementation_value iota_integer = 9
implementation_value logical_and_boolean = 10
implementation_value logical_or_boolean = 11
implementation_value not_equals_boolean = 12
implementation_value not_equals_integer = 13
implementation_value not_equals_double = 14
implementation_value odd_integer = 15
implementation_value even_integer = 16
implementation_value is_positive_integer = 17
implementation_value is_positive_double = 18
implementation_value is_negative_integer = 19
implementation_value is_negative_double = 20
implementation_value less_than_integer = 21
implementation_value less_than_double = 22
implementation_value greater_than_integer = 23
implementation_value greater_than_double = 24
implementation_value dec_integer = 25
implementation_value dec_double = 26
implementation_value neg_integer = 27
implementation_value neg_double = 28
implementation_value abs_integer = 29
implementation_value abs_double = 30
implementation_value sub_integer = 31
implementation_value sub_double = 32
implementation_value mul_integer = 33
implementation_value mul_double = 34

pub data LiftingMode : Type 0 where
  unlifted elementwise : LiftingMode

abbrev pub is_elementwise : LiftingMode → Bool
is_elementwise unlifted = false
is_elementwise elementwise = true

pub record ValueType : Type 0 where
  pub container : ContainerKind
  pub element : ScalarType

-- `address` is the identity of the object, which the code compares in one place.
pub record PrimitiveSignature : Type 0 where
  pub parameters : List ValueType
  pub result : ValueType
  pub implementation : PrimitiveImplementation
  pub address : ℕ

pub record PrimitiveDescriptor : Type 0 where
  pub id : PrimitiveId
  pub name : Bytes
  pub lifting : LiftingMode
  pub signatures : List PrimitiveSignature
