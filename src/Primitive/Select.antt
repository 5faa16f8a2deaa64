-- ===== src/Primitive/Select.antt =====
-- `conversion_cost` and `select_primitive_signature` of src/primitive.cpp. The proofs are in
-- the children. A `bool` result with a cost behind it is an `Option`.
pub mod Cheapest
pub mod Loop
pub mod Best
use bennu.Prelude.{
  ℕ, zero, suc, ◌+◌, ◌-◌, ◌^◌, Bool, true, false, not, List, [], ◌∷◌, Option, none, some, length,
  ltb, eqb, if◌then◌else◌, ◌==◌, nat_eq,
}
use bennu.Scalar.Types.{ScalarType, integer, double_precision, scalar_type_eq}
use bennu.Primitive.Types.{ValueType, PrimitiveSignature, PrimitiveDescriptor}

-- `std::numeric_limits<std::size_t>::max()`
abbrev pub size_max : ℕ
size_max = 2 ^ 64 - 1

unfoldable pub conversion_cost : ScalarType → ScalarType → Option ℕ
conversion_cost double_precision double_precision = some 0
conversion_cost integer integer = some 0
conversion_cost integer double_precision = some 1
conversion_cost ScalarType.boolean ScalarType.boolean = some 0
conversion_cost _ _ = none

-- The loop over the parameters: the cost so far is added to.
unfoldable pub add_costs : List ScalarType → List ValueType → ℕ → Option ℕ
add_costs [] ps total_cost = some total_cost
add_costs (a ∷ as') [] total_cost = some total_cost
add_costs (a ∷ as') (p ∷ ps) total_cost = elim (conversion_cost a p.element) [
  | none ↦ none
  | some cost ↦ add_costs as' ps (total_cost + cost)
]

-- The variables of the loop over the signatures.
pub record Selection : Type 0 where
  pub arity_exists : Bool
  pub selected : Option PrimitiveSignature
  pub selected_index : ℕ
  pub selected_cost : ℕ
  pub ambiguous : Bool

-- The body of the loop behind the test of the arity, at the total cost of an accepted signature.
unfoldable pub offer : ℕ → PrimitiveSignature → ℕ → Selection → Selection
offer index signature total_cost s =
    if ltb total_cost s.selected_cost
    then record s {
      selected = some signature;
      selected_index = index;
      selected_cost = total_cost;
      ambiguous = false;
    }
    else if total_cost == s.selected_cost
    then record s { ambiguous = true }
    else s

unfoldable pub consider : List ScalarType → ℕ → PrimitiveSignature → Selection → Selection
unfolding offer
consider actual_types index signature s =
    if not (length signature.parameters == length actual_types)
    then s
    else let s' = record s { arity_exists = true } in
      elim (add_costs actual_types signature.parameters 0) [
        | none ↦ s'
        | some total_cost ↦ offer index signature total_cost s'
      ]

unfoldable pub select_from : List ScalarType → ℕ → List PrimitiveSignature → Selection → Selection
select_from actual_types index [] s = s
select_from actual_types index (signature ∷ rest) s =
    select_from actual_types (index + 1) rest (consider actual_types index signature s)

abbrev pub no_selection : Selection
no_selection = record {
  arity_exists = false;
  selected = none;
  selected_index = 0;
  selected_cost = size_max;
  ambiguous = false;
}

pub data SignatureSelectionStatus : Type 0 where
  success arity_mismatch type_mismatch ambiguous_selection : SignatureSelectionStatus

pub record SignatureSelectionResult : Type 0 where
  pub status : SignatureSelectionStatus
  pub signature : Option PrimitiveSignature
  pub signature_index : ℕ
  pub promotion_cost : ℕ

abbrev pub refused : SignatureSelectionStatus → SignatureSelectionResult
refused status = record {
  status = status;
  signature = none;
  signature_index = 0;
  promotion_cost = 0;
}

-- The returns behind the loop.
unfoldable pub selection_result : Selection → SignatureSelectionResult
selection_result s = if not s.arity_exists then refused arity_mismatch else elim s.selected [
  | none ↦ refused type_mismatch
  | some signature ↦ if s.ambiguous then refused ambiguous_selection else record {
    status = success;
    signature = some signature;
    signature_index = s.selected_index;
    promotion_cost = s.selected_cost;
  }
]

unfoldable pub select_primitive_signature :
    PrimitiveDescriptor → List ScalarType → SignatureSelectionResult
unfolding selection_result
select_primitive_signature descriptor actual_types =
    selection_result (select_from actual_types 0 descriptor.signatures no_selection)
