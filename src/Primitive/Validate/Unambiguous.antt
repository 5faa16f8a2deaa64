-- ===== src/Primitive/Validate/Unambiguous.antt =====
-- Where the search for ambiguous assignments finds none, no call of the primitive is ambiguous.
use bennu.Prelude.{
  ℕ, ◌<◌, ◌≡◌, ◌≢◌, true, false, List, [], ◌∷◌, ◌++◌, none, some, length, get_elem?, All,
  All-get_elem?, arith, Option-cases, inl, inr, ◌+◌,
}
use bennu.Scalar.Types.{ScalarType}
use bennu.Primitive.Types.{PrimitiveSignature, PrimitiveDescriptor}
use bennu.Primitive.Ambiguity.{has_ambiguous_assignment}
use bennu.Primitive.Ambiguity.Search.{has_ambiguous_assignment-select}
use bennu.Primitive.Select.{
  size_max, Selection, select_from, no_selection, ambiguous_selection, selection_result,
  select_primitive_signature,
}
use bennu.Primitive.Select.Cheapest.{cost_at}
use bennu.Primitive.Select.Best.{Explains, select_primitive_signature-Explains}
use bennu.Primitive.Validate.{already_checked, check_ambiguity}
use bennu.Primitive.Validate.Signatures.{then_check-none}

-- No arity of a signature in the list has an ambiguous assignment.
abbrev pub Unambiguous : PrimitiveDescriptor → List PrimitiveSignature → Type 0
Unambiguous d =
    All λ s. has_ambiguous_assignment d (length s.parameters) (length s.parameters) 0 [] ≡ false

already_checked-Unambiguous :
    (d : PrimitiveDescriptor) (arity : ℕ) (before : List PrimitiveSignature)
    → Unambiguous d before
    → already_checked arity before ≡ true
    → has_ambiguous_assignment d arity arity 0 [] ≡ false
unfolding already_checked
already_checked-Unambiguous d arity [] u h = cc
already_checked-Unambiguous d arity (p ∷ ps) (u, us) h =
    ground (arith, already_checked-Unambiguous d arity ps us)

All-concat {ℓ κ} :
    {A : Type ℓ} (P : A → Type κ) (xs : List A) (x : A) → All P xs → P x → All P (xs ++ (x ∷ []))
All-concat P [] x ps p = (p, tt)
All-concat P (y ∷ xs) x (q, ps) p = (q, All-concat P xs x ps p)

pub check_ambiguity-Unambiguous :
    (d : PrimitiveDescriptor) (i s : ℕ) (before rest : List PrimitiveSignature)
    → check_ambiguity d i s before rest ≡ none
    → Unambiguous d before
    → Unambiguous d rest
unfolding check_ambiguity
check_ambiguity-Unambiguous d i s before [] h u = tt
check_ambiguity-Unambiguous d i s before (x ∷ rest) h u =
    let arity = length x.parameters in
    let here : has_ambiguous_assignment d arity arity 0 [] ≡ false =
      ground (arith, already_checked-Unambiguous d arity before u) in
    (
      here,
      check_ambiguity-Unambiguous d i (s + 1) (before ++ (x ∷ [])) rest (then_check-none _ _ h).1
          (All-concat _ before x u here),
    )

-- A signature that accepts the arguments takes as many of them.
pub cost_at-arity :
    (types : List ScalarType) (all : List PrimitiveSignature) (i c : ℕ)
    → cost_at types all i ≡ some c
    → (x : PrimitiveSignature) × (get_elem? all i ≡ some x) × (length x.parameters ≡ length types)
cost_at-arity types all i c e = elim (Option-cases (get_elem? all i)) [
  | inl out ↦ absurd (ground arith)
  | inr (x, here) ↦ (x, here, ground arith)
]

selection_result-ambiguous :
    (s : Selection) → (selection_result s).status ≡ ambiguous_selection → s.ambiguous ≡ true
unfolding selection_result
selection_result-ambiguous s h = ground arith

-- A call of the primitive, with any number of arguments.
pub Unambiguous-select :
    (d : PrimitiveDescriptor) (types : List ScalarType)
    → Unambiguous d d.signatures
    → length types < size_max
    → (select_primitive_signature d types).status ≢ ambiguous_selection
unfolding select_primitive_signature
Unambiguous-select d types u short e =
    let explained : Explains types d.signatures ambiguous_selection
        (select_primitive_signature d types) =
      rw e at (select_primitive_signature-Explains d types short) in
    let (j, k, c, p, q, rest, least) = explained in
    let (x, at, same) = cost_at-arity types d.signatures j c q in
    let unambiguous = All-get_elem? _ d.signatures j u at in
    let s : Selection = select_from types 0 d.signatures no_selection in
    let f : s.ambiguous ≡ false =
      has_ambiguous_assignment-select d types short (rw same at unambiguous) in
    cc (selection_result-ambiguous s e)
