-- ===== src/Scalar/Types.antt =====
-- `ScalarType`, `ContainerKind` and `ScalarValue` of include/bennu/value.hpp. A double is its bit
-- pattern, a number below 2 ^ 64, which is how the code reads it by `std::bit_cast`.
use bennu.Prelude.{ℕ, Bool, true, false, ◌≡◌, ◌↔◌, arith, Eq}
use bennu.Prelude.Int.{ℤ, pos}

pub data ScalarType : Type 0 where
  boolean integer double_precision : ScalarType

pub data ContainerKind : Type 0 where
  scalar vector tuple : ContainerKind

abbrev pub same_scalar_type : ScalarType → ScalarType → Bool
same_scalar_type boolean boolean = true
same_scalar_type integer integer = true
same_scalar_type double_precision double_precision = true
same_scalar_type _ _ = false

pub same_scalar_type_iff : (a b : ScalarType) → (same_scalar_type a b ≡ true) ↔ (a ≡ b)
same_scalar_type_iff a b = ground arith

instance abbrev pub scalar_type_eq : Eq ScalarType
scalar_type_eq = record { test = same_scalar_type; test_iff = same_scalar_type_iff }

abbrev pub same_container : ContainerKind → ContainerKind → Bool
same_container scalar scalar = true
same_container vector vector = true
same_container tuple tuple = true
same_container _ _ = false

pub same_container_iff : (a b : ContainerKind) → (same_container a b ≡ true) ↔ (a ≡ b)
same_container_iff a b = ground arith

instance abbrev pub container_eq : Eq ContainerKind
container_eq = record { test = same_container; test_iff = same_container_iff }

-- The field `kind` is the source's `type`, and `double_bits` its `double_precision`.
pub record ScalarValue : Type 0 where
  pub kind : ScalarType
  pub boolean_field : Bool
  pub integer_field : ℤ
  pub double_bits : ℕ

abbrev pub empty_scalar_value : ScalarValue
empty_scalar_value = record {
  kind = boolean;
  boolean_field = false;
  integer_field = pos 0;
  double_bits = 0;
}
