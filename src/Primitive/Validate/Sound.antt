-- ===== src/Primitive/Validate/Sound.antt =====
-- What a table that `validate_primitive_table` accepts guarantees.
use bennu.Prelude.{
  ℕ, zero, suc, ◌+◌, ◌<◌, ◌≡◌, ◌≢◌, true, false, List, [], ◌∷◌, ◌++◌, none, some, length, get_elem?,
  All, if◌then◌else◌, arith, Option-cases, inl, inr, codes, ◌==◌, nat_eq, bytes_eq,
}
use mathlib.Core.Option.{some-injective}
use bennu.Scalar.Types.{ScalarType}
use bennu.Primitive.Types.{PrimitiveSignature, PrimitiveDescriptor, is_elementwise, id_eq}
use bennu.Primitive.Implementation.{implementation_matches}
use bennu.Primitive.Implementation.Operands.{IsImplemented, implementation_matches-IsImplemented}
use bennu.Primitive.Select.{size_max, ambiguous_selection, select_primitive_signature}
use bennu.Primitive.Validate.Refusal.{check_descriptors-Refuses}
use bennu.Primitive.Validate.Signatures.{then_check-none, AllShaped, check_signatures-AllShaped}
use bennu.Primitive.Validate.Unambiguous.{check_ambiguity-Unambiguous, Unambiguous-select}
use bennu.Primitive.Validate.{
  fail_if, check_duplicates, check_signatures, check_ambiguity, check_implementations,
  check_descriptor, check_descriptors, is_empty, validate_primitive_table, invalid_table,
  reserved_name, missing_signature,
}

check_implementations-IsImplemented :
    (d : PrimitiveDescriptor) (i s : ℕ) (rest : List PrimitiveSignature)
    → check_implementations d i s rest ≡ none
    → All (λ x. IsImplemented d.id x) rest
unfolding check_implementations
check_implementations-IsImplemented d i s [] h = tt
check_implementations-IsImplemented d i s (x ∷ rest) h =
    let matches : implementation_matches d.id x ≡ true = ground arith in
    (
      implementation_matches-IsImplemented d.id x matches,
      check_implementations-IsImplemented d i (s + 1) rest (then_check-none _ _ h).1,
    )

check_duplicates-ne :
    (d : PrimitiveDescriptor) (i p : ℕ) (before : List PrimitiveDescriptor)
    → check_duplicates d i p before ≡ none
    → All (λ e. (e.id ≢ d.id) × (e.name ≢ d.name)) before
unfolding check_duplicates
check_duplicates-ne d i p [] h = tt
check_duplicates-ne d i p (e ∷ rest) h = (
  (
    λ q. ground (arith, (id_eq.test_iff e.id d.id).1 q),
    λ q. ground (arith, (bytes_eq.test_iff e.name d.name).1 q),
  ),
  check_duplicates-ne d i (p + 1) rest (then_check-none _ _ (then_check-none _ _ h).1).1,
)

-- A descriptor that the table may hold behind the descriptors `before`.
pub record IsAccepted (before : List PrimitiveDescriptor) (d : PrimitiveDescriptor) : Type 0 where
  pub not_reserved : d.name ≢ codes "parameters"
  pub fresh : All (λ e. (e.id ≢ d.id) × (e.name ≢ d.name)) before
  pub has_signature : d.signatures ≢ []
  pub implemented : All (λ x. IsImplemented d.id x) d.signatures
  pub shaped : AllShaped (is_elementwise d.lifting) [] d.signatures
  pub unambiguous :
      is_elementwise d.lifting ≡ true
      → (types : List ScalarType) → length types < size_max
      → (select_primitive_signature d types).status ≢ ambiguous_selection

check_descriptor-IsAccepted :
    (i : ℕ) (before : List PrimitiveDescriptor) (d : PrimitiveDescriptor)
    → check_descriptor i before d ≡ none
    → IsAccepted before d
unfolding check_descriptor is_empty
check_descriptor-IsAccepted i before d h =
    let e = is_elementwise d.lifting in
    let name = fail_if (d.name == codes "parameters") (invalid_table reserved_name i 0 i 0) in
    let count = fail_if (is_empty d.signatures) (invalid_table missing_signature i 0 i 0) in
    let ties = if e then check_ambiguity d i 0 [] d.signatures else none in
    let h1 = then_check-none name _ h in
    let h2 = then_check-none (check_duplicates d i 0 before) _ h1.1 in
    let h3 = then_check-none count _ h2.1 in
    let h4 = then_check-none (check_signatures e i 0 [] d.signatures) _ h3.1 in
    let h5 = then_check-none ties _ h4.1 in
    record {
      not_reserved = λ q. ground (arith, (bytes_eq.test_iff d.name (codes "parameters")).1 q);
      fresh = check_duplicates-ne d i 0 before h2.0;
      has_signature = λ q. ground (arith, h3.0);
      implemented = check_implementations-IsImplemented d i 0 d.signatures h5.1;
      shaped = check_signatures-AllShaped e i 0 [] d.signatures h4.0;
      unambiguous = λ e types short.
          Unambiguous-select d types
            (check_ambiguity-Unambiguous d i 0 [] d.signatures (rw e at h5.0) tt) short;
    }

-- Every descriptor of the list is accepted behind those before it.
abbrev pub AllAccepted : List PrimitiveDescriptor → List PrimitiveDescriptor → Type 0
AllAccepted before [] = Unit
AllAccepted before (d ∷ ds) = IsAccepted before d × AllAccepted (before ++ (d ∷ [])) ds

check_descriptors-AllAccepted :
    (i : ℕ) (before ds : List PrimitiveDescriptor)
    → check_descriptors i before ds ≡ none
    → AllAccepted before ds
unfolding check_descriptors
check_descriptors-AllAccepted i before [] h = tt
check_descriptors-AllAccepted i before (d ∷ ds) h =
    let both = then_check-none _ _ h in
    (
      check_descriptor-IsAccepted i before d both.0,
      check_descriptors-AllAccepted (i + 1) (before ++ (d ∷ [])) ds both.1,
    )

pub AllAccepted-unambiguous :
    (before ds : List PrimitiveDescriptor) (i : ℕ) {d : PrimitiveDescriptor}
    → AllAccepted before ds
    → get_elem? ds i ≡ some d
    → is_elementwise d.lifting ≡ true
    → (types : List ScalarType) → length types < size_max
    → (select_primitive_signature d types).status ≢ ambiguous_selection
AllAccepted-unambiguous before [] i a e = cc
AllAccepted-unambiguous before (x ∷ ds) zero (a, as') e = rw (some-injective _ _ e) at a.unambiguous
AllAccepted-unambiguous before (x ∷ ds) (suc i) (a, as') e =
    AllAccepted-unambiguous (before ++ (x ∷ [])) ds i as' e

-- A table that the validation accepts is not empty; no name in it is `parameters`, and identifiers,
-- names and, within a descriptor, the types of signatures do not repeat. Every descriptor has
-- signatures, each with an argument, and with a kernel of that primitive whose operand types and
-- result type are the signature's. A lifted descriptor has scalar signatures, and no call of it is
-- ambiguous.
pub validate_primitive_table-AllAccepted :
    (ds : List PrimitiveDescriptor)
    → (validate_primitive_table ds).is_ok ≡ true
    → (ds ≢ []) × AllAccepted [] ds
unfolding validate_primitive_table
validate_primitive_table-AllAccepted [] h = ground arith
validate_primitive_table-AllAccepted (d ∷ ds) h =
    elim (Option-cases (check_descriptors 0 [] (d ∷ ds))) [
      | inl e ↦ (λ q. ground arith, check_descriptors-AllAccepted 0 [] (d ∷ ds) e)
      | inr (r, e) ↦
          let refused : r.is_ok ≡ false = rw e at (check_descriptors-Refuses 0 [] (d ∷ ds)) in
          ground arith
    ]
