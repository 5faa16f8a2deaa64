-- ===== src/Application/Pointwise.antt =====
-- The elements that the loop of `apply_primitive_impl` of src/application.cpp writes.
use bennu.Prelude.{
  ℕ, zero, suc, ◌+◌, ◌≤◌, ◌<◌, ◌≡◌, ◌⊎◌, inl, inr, Bool, Bool-cases, true, false, none, some,
  Option-cases, List, if◌then◌else◌, [], ◌∷◌, length, get_elem?, ◌==◌, nat_eq, arith, refl,
}
use bennu.Scalar.Types.{ScalarValue, scalar_type_eq}
use bennu.Scalar.Binary64.{valid_scalar}
use bennu.Primitive.Kernel.{invoke_scalar_kernel}
use bennu.Primitive.Kernel
use bennu.Primitive.Kernel.Result.{invoke_scalar_kernel-Delivers, Delivers}
use bennu.Error.{Error, success, failure, Outcome-cases}
use bennu.Value.{VectorValue}
use bennu.Application.Elements.{
  Call, convert_operands, kernel_outcome, evaluate_at, invoked_at, set_at, store_scalar, Filled,
  fill_vector,
}

-- What the scalars of a call are: valid, and of the result type of the signature.
abbrev pub Sound : Call → ScalarValue → Type 0
Sound call s = (valid_scalar s ≡ true) × (s.kind ≡ call.signature.result.element)

kernel_outcome-success :
    (vector_result : Bool) (index : ℕ) (result : Kernel.ScalarKernelResult) {s : ScalarValue}
    → kernel_outcome vector_result index result ≡ success s
    → (result.status ≡ Kernel.success) × (result.value ≡ s)
unfolding kernel_outcome
kernel_outcome-success vector_result index result e = (ground (arith, e), ground (arith, e))

delivered-Sound :
    (call : Call) (invoked : Bool) (r : Kernel.ScalarKernelResult) (s : ScalarValue)
    → ((invoked ≡ true) × Delivers call.signature r)
      ⊎ ((invoked ≡ false) × (r.status ≡ Kernel.invalid_invocation))
    → r.status ≡ Kernel.success
    → r.value ≡ s
    → Sound call s
delivered-Sound call invoked r s (inl (i, inl (ok, valid, kind))) e v = rw (← v) (valid, kind)
delivered-Sound call invoked r s (inl (i, inr (overflow, int))) e v =
    absurd (ground (arith, e, overflow))
delivered-Sound call invoked r s (inr (i, refused)) e v = absurd (ground (arith, e, refused))

pub evaluate_at-Sound :
    (call : Call) (index : ℕ) (s : ScalarValue) → evaluate_at call index ≡ success s → Sound call s
unfolding evaluate_at
evaluate_at-Sound call index s e =
    elim (Option-cases (convert_operands call.arguments call.signature.parameters index)) [
      | inl nothing ↦ absurd (ground (arith, (rw (nothing, evaluate_at) at e)))
      | inr (operands, converted) ↦
          let delivered =
            invoke_scalar_kernel-Delivers call.unit call.host call.location call.descriptor
              call.signature operands in
          let result =
            invoke_scalar_kernel call.unit call.host call.descriptor call.signature operands
              call.location in
          let done =
            kernel_outcome-success call.vector_result index result
              (rw (converted, evaluate_at) at e) in
          delivered-Sound call _ result s delivered done.0 done.1
    ]

length-set_at :
    (xs : List ScalarValue) (index : ℕ) (s : ScalarValue) → length (set_at xs index s) ≡ length xs
unfolding set_at
length-set_at [] index s = refl
length-set_at (x ∷ xs) zero s = refl
length-set_at (x ∷ xs) (suc index) s = omega (arith, length-set_at xs index s)

get_elem?-set_at :
    (xs : List ScalarValue) (index i : ℕ) (s : ScalarValue)
    → index < length xs
    → get_elem? (set_at xs index s) i ≡ (if i == index then some s else get_elem? xs i)
unfolding set_at
get_elem?-set_at [] index i s h = absurd (omega arith)
get_elem?-set_at (x ∷ xs) zero zero s h = refl
get_elem?-set_at (x ∷ xs) zero (suc i) s h = ground arith
get_elem?-set_at (x ∷ xs) (suc index) zero s h = ground arith
get_elem?-set_at (x ∷ xs) (suc index) (suc i) s h =
    ground (arith, get_elem?-set_at xs index i s (omega arith))

-- Each element from one index up to another is the kernel's result there.
abbrev pub Evaluated : Call → List ScalarValue → ℕ → ℕ → Type 0
Evaluated call elements low high =
    (i : ℕ)
    → low ≤ i
    → i < high
    → (s : ScalarValue) × (evaluate_at call i ≡ success s) × (get_elem? elements i ≡ some s)

-- The loop ended with every element written, and a call of the kernel for each.
abbrev pub Complete : Call → ℕ → ℕ → ℕ → Filled → Type 0
Complete call index remaining invocations f =
    (f.error ≡ none)
    × Evaluated call f.vector.elements index (index + remaining)
    × (f.invocations ≡ invocations + remaining)

-- The loop stopped at the first element that has no result, with the error found there.
abbrev pub Stopped : Call → ℕ → ℕ → ℕ → Filled → Type 0
Stopped call index remaining invocations f =
    (k : ℕ) × (error : Error) × (index ≤ k)
    × (k < index + remaining)
    × (f.error ≡ some error)
    × (evaluate_at call k ≡ failure error)
    × Evaluated call f.vector.elements index k
    × (f.invocations + index ≡ invocations + k + invoked_at call k)

pub record Loop (call : Call) (index remaining invocations : ℕ) (v : VectorValue) (f : Filled)
    : Type 0 where
  pub shape : f.vector ≡ record v { elements = f.vector.elements }
  pub size : length f.vector.elements ≡ length v.elements
  pub before : (i : ℕ) → i < index → get_elem? f.vector.elements i ≡ get_elem? v.elements i
  pub ends :
      Complete call index remaining invocations f ⊎ Stopped call index remaining invocations f

evaluated-invoked :
    (call : Call) (index : ℕ) (s : ScalarValue)
    → evaluate_at call index ≡ success s
    → invoked_at call index ≡ 1
unfolding evaluate_at invoked_at
evaluated-invoked call index s e = ground (arith, e)

stored :
    (v : VectorValue) (index : ℕ) (s : ScalarValue)
    → s.kind ≡ v.element_type
    → store_scalar v index s ≡ some (record v { elements = set_at v.elements index s })
unfolding store_scalar
stored v index s e = ground (arith, e)

-- One more element in front of those that the rest of the loop wrote.
extend-Evaluated :
    (call : Call) (elements : List ScalarValue) (index high : ℕ) (s : ScalarValue)
    → evaluate_at call index ≡ success s
    → get_elem? elements index ≡ some s
    → Evaluated call elements (index + 1) high
    → Evaluated call elements index high
extend-Evaluated call elements index high s e here rest i low below =
    elim (Bool-cases (i == index)) [
      | inl same ↦ let this : i ≡ index = ground (arith, same) in (s, rw this e, rw this here)
      | inr other ↦ rest i (ground (arith, other)) below
    ]

next-ends :
    (call : Call) (remaining index invocations : ℕ) (s : ScalarValue)
    → evaluate_at call index ≡ success s
    → invoked_at call index ≡ 1
    → (f : Filled) → get_elem? f.vector.elements index ≡ some s
    → Complete call (index + 1) remaining (invocations + invoked_at call index) f
      ⊎ Stopped call (index + 1) remaining (invocations + invoked_at call index) f
    → Complete call index (suc remaining) invocations f
      ⊎ Stopped call index (suc remaining) invocations f
next-ends call remaining index invocations s e once f here (inl (none_e, all, count)) =
    let length_e : index + 1 + remaining ≡ index + suc remaining = omega arith in
    inl (
      none_e,
      extend-Evaluated call f.vector.elements index (index + suc remaining) s e here
          (rw length_e at all),
      omega (arith, count, once),
    )
next-ends call remaining index invocations s e once f here
      (inr (k, error, low, high, stop, failed, all, count)) =
    inr (
      k,
      error,
      omega arith,
      omega arith,
      stop,
      failed,
      extend-Evaluated call f.vector.elements index k s e here all,
      omega (arith, count, once),
    )

next-Loop :
    (call : Call) (remaining index : ℕ) (v : VectorValue) (invocations : ℕ) (s : ScalarValue)
    → evaluate_at call index ≡ success s
    → invoked_at call index ≡ 1
    → index < length v.elements
    → (f : Filled)
    → Loop call
        (index + 1)
        remaining
        (invocations + invoked_at call index)
        (record v { elements = set_at v.elements index s })
        f
    → Loop call index (suc remaining) invocations v f
next-Loop call remaining index v invocations s e once room f rest =
    let here : get_elem? f.vector.elements index ≡ some s =
      ground
        (arith, rest.before index (omega arith), get_elem?-set_at v.elements index index s room) in
    record {
      shape = rest.shape;
      size = omega (arith, rest.size, length-set_at v.elements index s);
      before = λ i h.
          ground (arith, rest.before i (omega arith), get_elem?-set_at v.elements index i s room);
      ends = next-ends call remaining index invocations s e once f here rest.ends;
    }

pub fill_vector-Loop :
    (call : Call) (remaining index : ℕ) (v : VectorValue) (invocations : ℕ)
    → v.element_type ≡ call.signature.result.element
    → index + remaining ≤ length v.elements
    → Loop call index remaining invocations v (fill_vector call remaining index v invocations)
unfolding fill_vector
fill_vector-Loop call zero index v invocations t fits = record {
  shape = refl;
  size = refl;
  before = λ i h. refl;
  ends = inl (refl, (λ i low high. absurd (omega arith)), omega arith);
}
fill_vector-Loop call (suc remaining) index v invocations t fits =
    elim (Outcome-cases (evaluate_at call index)) [
      | inr (error, failed) ↦
          (rw (failed, fill_vector)
            (record {
              shape = refl;
              size = refl;
              before = λ i h. refl;
              ends = inr (
                index,
                error,
                omega arith,
                omega arith,
                refl,
                failed,
                (λ i low high. absurd (omega arith)),
                omega arith,
              );
            }))
      | inl (s, e) ↦
          let written = record v { elements = set_at v.elements index s } in
          let sound = evaluate_at-Sound call index s e in
          let put : store_scalar v index s ≡ some written = stored v index s (cc (sound.1, t)) in
          let once = evaluated-invoked call index s e in
          let after = invocations + invoked_at call index in
          let rest =
            fill_vector-Loop call remaining (index + 1) written after t
              (omega (arith, length-set_at v.elements index s)) in
          (rw (e, put, fill_vector)
            (next-Loop call remaining index v invocations s e once (omega arith) _ rest))
    ]
