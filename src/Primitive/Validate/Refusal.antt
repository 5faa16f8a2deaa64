-- ===== src/Primitive/Validate/Refusal.antt =====
-- A check of `validate_primitive_table` that returns early returns a refusal.
use bennu.Prelude.{
  ℕ, ◌+◌, ◌≡◌, refl, Bool, true, false, not, List, [], ◌∷◌, ◌++◌, none, some, codes, if◌then◌else◌,
  ◌==◌, bytes_eq,
}
use bennu.Scalar.Types.{container_eq}
use bennu.Primitive.Types.{PrimitiveSignature, PrimitiveDescriptor, is_elementwise, id_eq}
use bennu.Primitive.Implementation.{implementation_matches}
use bennu.Primitive.Validate.{
  PrimitiveTableError, Check, ◌then_check◌, fail_if, invalid_table, check_duplicates,
  check_signature_duplicates, check_signature, check_signatures, check_ambiguity,
  check_implementations, check_descriptor, check_descriptors, is_empty, reserved_name, duplicate_id,
  duplicate_name, missing_signature, duplicate_signature, zero_arity, equal_cost_ambiguity,
  elementwise_non_scalar_signature, missing_implementation, same_signature,
}

abbrev pub Refuses : Check → Type 0
Refuses none = Unit
Refuses (some r) = r.is_ok ≡ false

fail_if-Refuses :
    (b : Bool) (error : PrimitiveTableError) (d s cd cs : ℕ)
    → Refuses (fail_if b (invalid_table error d s cd cs))
fail_if-Refuses true error d s cd cs = refl
fail_if-Refuses false error d s cd cs = tt

then_check-Refuses : (a b : Check) → Refuses a → Refuses b → Refuses (a then_check b)
then_check-Refuses none b ha hb = hb
then_check-Refuses (some r) b ha hb = ha

check_duplicates-Refuses :
    (d : PrimitiveDescriptor) (i p : ℕ) (before : List PrimitiveDescriptor)
    → Refuses (check_duplicates d i p before)
unfolding check_duplicates
check_duplicates-Refuses d i p [] = tt
check_duplicates-Refuses d i p (e ∷ rest) =
    then_check-Refuses _ _ (fail_if-Refuses (e.id == d.id) duplicate_id i 0 p 0) (
      then_check-Refuses _ _ (fail_if-Refuses (e.name == d.name) duplicate_name i 0 p 0)
        (check_duplicates-Refuses d i (p + 1) rest))

check_signature_duplicates-Refuses :
    (x : PrimitiveSignature) (i s p : ℕ) (before : List PrimitiveSignature)
    → Refuses (check_signature_duplicates x i s p before)
unfolding check_signature_duplicates
check_signature_duplicates-Refuses x i s p [] = tt
check_signature_duplicates-Refuses x i s p (e ∷ rest) =
    then_check-Refuses _ _ (fail_if-Refuses (same_signature e x) duplicate_signature i s i p)
      (check_signature_duplicates-Refuses x i s (p + 1) rest)

check_signature-Refuses :
    (e : Bool) (i s : ℕ) (before : List PrimitiveSignature) (x : PrimitiveSignature)
    → Refuses (check_signature e i s before x)
unfolding check_signature
check_signature-Refuses e i s before x =
    then_check-Refuses _ _ (check_signature_duplicates-Refuses x i s 0 before) (
      then_check-Refuses _ _ (fail_if-Refuses (is_empty x.parameters) zero_arity i s i s)
        (fail_if-Refuses _ elementwise_non_scalar_signature i s i s))

check_signatures-Refuses :
    (e : Bool) (i s : ℕ) (before rest : List PrimitiveSignature)
    → Refuses (check_signatures e i s before rest)
unfolding check_signatures
check_signatures-Refuses e i s before [] = tt
check_signatures-Refuses e i s before (x ∷ rest) =
    then_check-Refuses _ _ (check_signature-Refuses e i s before x)
      (check_signatures-Refuses e i (s + 1) (before ++ (x ∷ [])) rest)

check_ambiguity-Refuses :
    (d : PrimitiveDescriptor) (i s : ℕ) (before rest : List PrimitiveSignature)
    → Refuses (check_ambiguity d i s before rest)
unfolding check_ambiguity
check_ambiguity-Refuses d i s before [] = tt
check_ambiguity-Refuses d i s before (x ∷ rest) =
    then_check-Refuses _ _ (fail_if-Refuses _ equal_cost_ambiguity i s i s)
      (check_ambiguity-Refuses d i (s + 1) (before ++ (x ∷ [])) rest)

check_implementations-Refuses :
    (d : PrimitiveDescriptor) (i s : ℕ) (rest : List PrimitiveSignature)
    → Refuses (check_implementations d i s rest)
unfolding check_implementations
check_implementations-Refuses d i s [] = tt
check_implementations-Refuses d i s (x ∷ rest) =
    then_check-Refuses _ _
      (fail_if-Refuses (not (implementation_matches d.id x)) missing_implementation i s i s)
      (check_implementations-Refuses d i (s + 1) rest)

ties-Refuses :
    (e : Bool) (d : PrimitiveDescriptor) (i : ℕ)
    → Refuses (if e then check_ambiguity d i 0 [] d.signatures else none)
ties-Refuses true d i = check_ambiguity-Refuses d i 0 [] d.signatures
ties-Refuses false d i = tt

check_descriptor-Refuses :
    (i : ℕ) (before : List PrimitiveDescriptor) (d : PrimitiveDescriptor)
    → Refuses (check_descriptor i before d)
unfolding check_descriptor
check_descriptor-Refuses i before d =
    let e = is_elementwise d.lifting in
    then_check-Refuses _ _ (fail_if-Refuses (d.name == codes "parameters") reserved_name i 0 i 0) (
      then_check-Refuses _ _ (check_duplicates-Refuses d i 0 before) (
        then_check-Refuses _ _ (fail_if-Refuses (is_empty d.signatures) missing_signature i 0 i 0) (
          then_check-Refuses _ _ (check_signatures-Refuses e i 0 [] d.signatures) (
            then_check-Refuses _ _ (ties-Refuses e d i)
              (check_implementations-Refuses d i 0 d.signatures)))))

pub check_descriptors-Refuses :
    (i : ℕ) (before ds : List PrimitiveDescriptor) → Refuses (check_descriptors i before ds)
unfolding check_descriptors
check_descriptors-Refuses i before [] = tt
check_descriptors-Refuses i before (d ∷ ds) =
    then_check-Refuses _ _ (check_descriptor-Refuses i before d)
      (check_descriptors-Refuses (i + 1) (before ++ (d ∷ [])) ds)
