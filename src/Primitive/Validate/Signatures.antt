-- ===== src/Primitive/Validate/Signatures.antt =====
-- What the checks of `validate_primitive_table` of src/primitive.cpp on single signatures guarantee.
use bennu.Prelude.{
  ℕ, ◌+◌, ◌≡◌, ◌≢◌, refl, Bool, true, List, [], ◌∷◌, ◌++◌, none, All, arith, ◌==◌, nat_eq,
  &&-eq-true,
}
use bennu.Scalar.Types.{scalar, scalar_type_eq, container_eq}
use bennu.Primitive.Types.{ValueType, PrimitiveSignature}
use bennu.Primitive.Validate.{
  Check, ◌then_check◌, same_value_type, same_parameters, same_signature, check_signature,
  check_signatures, is_empty, all_scalar_containers, check_signature_duplicates,
}

pub then_check-none : (a b : Check) → (a then_check b) ≡ none → (a ≡ none) × (b ≡ none)
then_check-none a b h = ground arith

-- Two signatures take arguments of the same types and have results of the same type.
abbrev pub SameTypes : PrimitiveSignature → PrimitiveSignature → Type 0
SameTypes s t = (s.result ≡ t.result) × (s.parameters ≡ t.parameters)

same_value_type_refl : (t : ValueType) → same_value_type t t ≡ true
unfolding same_value_type
same_value_type_refl t =
    let c = (container_eq.test_iff t.container t.container).1 refl in
    let e = (scalar_type_eq.test_iff t.element t.element).1 refl in ground arith

same_parameters_refl : (ps : List ValueType) → same_parameters ps ps ≡ true
unfolding same_parameters
same_parameters_refl [] = refl
same_parameters_refl (p ∷ ps) = ground (arith, same_value_type_refl p, same_parameters_refl ps)

SameTypes-same_signature : (s t : PrimitiveSignature) → SameTypes s t → same_signature s t ≡ true
unfolding same_signature
SameTypes-same_signature s t (result, parameters) =
    rw (result, parameters)
      (ground (arith, same_value_type_refl t.result, same_parameters_refl t.parameters))

check_signature_duplicates-distinct :
    (s : PrimitiveSignature) (i n p : ℕ) (before : List PrimitiveSignature)
    → check_signature_duplicates s i n p before ≡ none
    → All (λ e. ¬ SameTypes e s) before
unfolding check_signature_duplicates
check_signature_duplicates-distinct s i n p [] h = tt
check_signature_duplicates-distinct s i n p (e ∷ before) h = (
  λ same. let found = SameTypes-same_signature e s same in ground arith,
  check_signature_duplicates-distinct s i n (p + 1) before (then_check-none _ _ h).1,
)

all_scalar_containers-All :
    (ps : List ValueType) → all_scalar_containers ps ≡ true → All (λ p. p.container ≡ scalar) ps
unfolding all_scalar_containers
all_scalar_containers-All [] h = tt
all_scalar_containers-All (p ∷ ps) h =
    let (c, rest) = &&-eq-true _ _ h in
    ((container_eq.test_iff p.container scalar).0 c, all_scalar_containers-All ps rest)

-- A signature takes an argument, no earlier one has its types, and that of an elementwise descriptor
-- speaks of scalars alone.
pub record IsShaped (elementwise : Bool) (before : List PrimitiveSignature) (s : PrimitiveSignature)
    : Type 0 where
  pub takes_some : s.parameters ≢ []
  pub distinct : All (λ e. ¬ SameTypes e s) before
  pub scalars :
      elementwise ≡ true
      → (s.result.container ≡ scalar) × All (λ p. p.container ≡ scalar) s.parameters

check_signature-IsShaped :
    (e : Bool) (i n : ℕ) (before : List PrimitiveSignature) (s : PrimitiveSignature)
    → check_signature e i n before s ≡ none
    → IsShaped e before s
unfolding check_signature is_empty
check_signature-IsShaped e i n before s h =
    let (fresh, h') = then_check-none (check_signature_duplicates s i n 0 before) _ h in
    record {
      takes_some = λ q. ground (arith);
      distinct = check_signature_duplicates-distinct s i n 0 before fresh;
      scalars = λ lifted.
          let result : (s.result.container == scalar) ≡ true = ground arith in
          let parameters : all_scalar_containers s.parameters ≡ true = ground arith in
          (
            (container_eq.test_iff s.result.container scalar).0 result,
            all_scalar_containers-All s.parameters parameters,
          );
    }

-- Every signature of the list is as it should be behind those before it.
abbrev pub AllShaped : Bool → List PrimitiveSignature → List PrimitiveSignature → Type 0
AllShaped e before [] = Unit
AllShaped e before (s ∷ rest) = IsShaped e before s × AllShaped e (before ++ (s ∷ [])) rest

pub check_signatures-AllShaped :
    (e : Bool) (i n : ℕ) (before rest : List PrimitiveSignature)
    → check_signatures e i n before rest ≡ none
    → AllShaped e before rest
unfolding check_signatures
check_signatures-AllShaped e i n before [] h = tt
check_signatures-AllShaped e i n before (s ∷ rest) h =
    let (here, others) = then_check-none (check_signature e i n before s) _ h in
    (
      check_signature-IsShaped e i n before s here,
      check_signatures-AllShaped e i (n + 1) (before ++ (s ∷ [])) rest others,
    )
