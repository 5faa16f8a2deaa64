-- ===== src/Primitive/Kernel/Result.antt =====
-- A kernel that may be invoked gives a valid scalar of its signature's result type, or reports an
-- overflow; it is never refused.
use bennu.Prelude.{
  Bool-cases, ℕ, ◌≡◌, ◌≢◌, refl, ◌∙◌, Bool, true, false, List, [], ◌∷◌, length, arith, ◌==◌, nat_eq,
  inl, inr, ◌⊎◌,
}
use bennu.Prelude.Int.{ℤ}
use bennu.Scalar.Types.{ScalarType, integer, scalar, ScalarValue, scalar_type_eq, container_eq}
use bennu.Scalar.Binary64.{FloatingPointUnit, normalize_double, is_canonical_double, valid_scalar}
use bennu.Primitive.Types.{
  PrimitiveImplementation, PrimitiveSignature, PrimitiveDescriptor, ValueType, no_implementation,
  iota_integer,
}
use bennu.Primitive.Implementation.{implementation_matches}
use bennu.Primitive.Implementation.Arity.{
  arity, result_of, implementation_matches-shape, implementation_matches-scalar,
}
use bennu.Primitive.Kernel.{
  Outcome, value_outcome, overflow, unfit, kernel, kernel_result, operands_match, may_invoke,
  invoke_scalar_kernel, successful_kernel, overflow_result, invalid_kernel_invocation,
  ScalarKernelResult, success, domain_failure, invalid_invocation, bool_scalar, int_scalar,
  double_scalar,
}
use bennu.Error.{HostAllocator, SourceLocation}

operands_match-length :
    (os : List ScalarValue) (ps : List ValueType)
    → operands_match os ps ≡ true
    → length os ≡ length ps
unfolding operands_match
operands_match-length [] [] h = refl
operands_match-length [] (p ∷ ps) h = cc
operands_match-length (o ∷ os) [] h = cc
operands_match-length (o ∷ os) (p ∷ ps) h = ground (arith, operands_match-length os ps)

-- The scalars that the kernels make are valid.
int_scalar-valid : (a : ℤ) → valid_scalar (int_scalar a) ≡ true
unfolding valid_scalar
int_scalar-valid a = refl

bool_scalar-valid : (b : Bool) → valid_scalar (bool_scalar b) ≡ true
unfolding valid_scalar
bool_scalar-valid b = refl

double_scalar-valid : (bits : ℕ) → valid_scalar (double_scalar bits) ≡ true
unfolding valid_scalar normalize_double is_canonical_double
double_scalar-valid bits = ground arith

ruleset scalars = (arith, int_scalar-valid, bool_scalar-valid, double_scalar-valid)

-- What an outcome of a kernel of this result type and arity may be.
abbrev Fits : ScalarType → Outcome → Type 0
Fits t (value_outcome v) = (valid_scalar v ≡ true) × (v.kind ≡ t)
Fits t overflow = t ≡ integer
Fits t unfit = ⊥

kernel-Fits :
    (unit : FloatingPointUnit) (i : PrimitiveImplementation) (os : List ScalarValue)
    → i ≢ no_implementation
    → i ≢ iota_integer
    → length os ≡ arity i
    → Fits (result_of i) (kernel unit i os)
unfolding kernel
kernel-Fits unit no_implementation os p q h = absurd (p refl)
kernel-Fits unit iota_integer os p q h = absurd (q refl)
kernel-Fits unit i [] p q h = absurd (omega arith)
kernel-Fits unit i (a ∷ []) p q h = grind scalars
kernel-Fits unit i (a ∷ b ∷ []) p q h = grind scalars
kernel-Fits unit i (a ∷ b ∷ c ∷ os) p q h = absurd (omega arith)

may_invoke-parts :
    (d : PrimitiveDescriptor) (s : PrimitiveSignature) (os : List ScalarValue)
    → may_invoke d s os ≡ true
    → (implementation_matches d.id s ≡ true)
      × ((s.result.container == scalar) ≡ true)
      × (length os ≡ length s.parameters)
unfolding may_invoke
may_invoke-parts d s os h = ground (arith, operands_match-length os s.parameters)

-- What a result says of a signature that may be invoked.
abbrev pub Delivers : PrimitiveSignature → ScalarKernelResult → Type 0
Delivers s r =
    ((r.status ≡ success) × (valid_scalar r.value ≡ true) × (r.value.kind ≡ s.result.element))
    ⊎ ((r.status ≡ domain_failure) × (s.result.element ≡ integer))

module _ (unit : FloatingPointUnit) (host : HostAllocator) (location : SourceLocation) where
  kernel_result-Delivers :
      (d : PrimitiveDescriptor) (s : PrimitiveSignature) (os : List ScalarValue) (o : Outcome)
      → Fits s.result.element o
      → Delivers s (kernel_result host d s os location o)
  unfolding kernel_result successful_kernel overflow_result
  kernel_result-Delivers d s os (value_outcome v) f = inl (refl, f.0, f.1)
  kernel_result-Delivers d s os overflow f = inr (refl, f)
  kernel_result-Delivers d s os unfit f = elim f [ ]

  -- A kernel call whose guards hold is never refused: it gives a valid scalar of the result type
  -- of the signature, or, for an Int result only, reports an overflow. A call whose guards fail is
  -- refused as an invalid invocation.
  pub invoke_scalar_kernel-Delivers :
      (d : PrimitiveDescriptor) (s : PrimitiveSignature) (os : List ScalarValue)
      → let r = invoke_scalar_kernel unit host d s os location in
        ((may_invoke d s os ≡ true) × Delivers s r)
        ⊎ ((may_invoke d s os ≡ false) × (r.status ≡ invalid_invocation))
  unfolding invoke_scalar_kernel
  invoke_scalar_kernel-Delivers d s os = elim (Bool-cases (may_invoke d s os)) [
    | inl h ↦
        let (matches, is_scalar, count) = may_invoke-parts d s os h in
        let (defined, not_iota) = implementation_matches-scalar d.id s matches is_scalar in
        let (params, result) = implementation_matches-shape d.id s matches in
        inl (
          h,
          rw h (
              kernel_result-Delivers d s os (kernel unit s.implementation os) (
                rw result
                  (kernel-Fits unit s.implementation os defined not_iota (count ∙ params)))),
        )
    | inr h ↦ inr (h, rw h (unfold invalid_kernel_invocation in refl))
  ]
