-- ===== src/Primitive/Validate/Selection.antt =====
-- Overload selection in a table that the validation accepts.
use bennu.Prelude.{ℕ, ◌<◌, ◌≡◌, ◌≢◌, refl, true, List, [], some, length, get_elem?, ◌↔◌}
use bennu.Scalar.Types.{ScalarType}
use bennu.Primitive.Types.{PrimitiveSignature, PrimitiveDescriptor, is_elementwise}
use bennu.Primitive.Select.{
  size_max, SignatureSelectionStatus, success, arity_mismatch, type_mismatch, ambiguous_selection,
  SignatureSelectionResult, select_primitive_signature,
}
use bennu.Primitive.Select.Cheapest.{cost_at}
use bennu.Primitive.Select.Best.{Explains, select_primitive_signature-Explains}
use bennu.Primitive.Validate.{validate_primitive_table}
use bennu.Primitive.Validate.Unambiguous.{cost_at-arity}
use bennu.Primitive.Validate.Sound.{AllAccepted-unambiguous, validate_primitive_table-AllAccepted}

-- What `Explains` says, where there is no ambiguity.
success_of_Explains :
    (types : List ScalarType) (all : List PrimitiveSignature) (status : SignatureSelectionStatus)
    (r : SignatureSelectionResult)
    → Explains types all status r
    → status ≢ ambiguous_selection
    → (status ≡ success) ↔ ((j : ℕ) × (c : ℕ) × (cost_at types all j ≡ some c))
success_of_Explains types all success r h u =
    (λ e. (r.signature_index, r.promotion_cost, h.0.accepts), λ a. refl)
success_of_Explains types all arity_mismatch r h u = (
  λ e. absurd (cc),
  λ (j, c, e). let (x, here, same) = cost_at-arity types all j c e in absurd (h j x here same),
)
success_of_Explains types all type_mismatch r h u =
    (λ e. absurd (cc), λ (j, c, e). absurd (cc (h.0 j)))
success_of_Explains types all ambiguous_selection r h u = absurd (u refl)

-- In a table that the validation accepts, a call of a lifted primitive selects a signature exactly
-- when some signature accepts the types of its arguments: no call is ambiguous.
pub select_primitive_signature-valid_table :
    (ds : List PrimitiveDescriptor) (i : ℕ) (d : PrimitiveDescriptor) (types : List ScalarType)
    → (validate_primitive_table ds).is_ok ≡ true
    → get_elem? ds i ≡ some d
    → is_elementwise d.lifting ≡ true
    → length types < size_max
    → ((select_primitive_signature d types).status ≡ success)
      ↔ ((j : ℕ) × (c : ℕ) × (cost_at types d.signatures j ≡ some c))
select_primitive_signature-valid_table ds i d types valid here lifted short =
    success_of_Explains types d.signatures _ r explained tie
  where
    r : SignatureSelectionResult
    r = select_primitive_signature d types

    explained : Explains types d.signatures r.status r
    explained = select_primitive_signature-Explains d types short

    tie : r.status ≢ ambiguous_selection
    tie =
        AllAccepted-unambiguous [] ds i (validate_primitive_table-AllAccepted ds valid).1 here
          lifted types short
