-- ===== src/Primitive/Ambiguity.antt =====
-- `assigned_type`, `assignment_is_ambiguous` and `has_ambiguous_assignment` of src/primitive.cpp:
-- the search for argument types that two signatures of a descriptor take at the least cost.
pub mod Search
use bennu.Prelude.{
  ℕ, zero, suc, ◌+◌, Bool, true, false, not, ◌||◌, List, [], ◌∷◌, Option, none, some, length, ltb,
  if◌then◌else◌, ◌==◌, nat_eq,
}
use bennu.Scalar.Types.{ScalarType, boolean, integer, double_precision}
use bennu.Primitive.Types.{ValueType, PrimitiveSignature, PrimitiveDescriptor}
use bennu.Primitive.Select.{size_max, conversion_cost}

-- A node of the linked list, the newest first.
pub record TypeAssignment : Type 0 where
  pub type : ScalarType
  pub index : ℕ

unfoldable pub assigned_type : List TypeAssignment → ℕ → ScalarType
assigned_type [] index = boolean
assigned_type (node ∷ previous) index =
    if node.index == index then node.type else assigned_type previous index

-- The loop over the parameters from `parameter_index` on.
unfoldable pub assignment_cost : List TypeAssignment → ℕ → List ValueType → ℕ → Option ℕ
assignment_cost assignment parameter_index [] total_cost = some total_cost
assignment_cost assignment parameter_index (p ∷ ps) total_cost =
    elim (conversion_cost (assigned_type assignment parameter_index) p.element) [
      | none ↦ none
      | some cost ↦ assignment_cost assignment (parameter_index + 1) ps (total_cost + cost)
    ]

pub record Minimum : Type 0 where
  pub minimum_cost : ℕ
  pub minimum_count : ℕ

unfoldable pub count_cost : ℕ → Minimum → Minimum
count_cost total_cost m =
    if ltb total_cost m.minimum_cost
    then record { minimum_cost = total_cost; minimum_count = 1 }
    else if total_cost == m.minimum_cost
    then record m { minimum_count = m.minimum_count + 1 }
    else m

-- The body of the loop over the signatures.
unfoldable pub count_signature : ℕ → List TypeAssignment → PrimitiveSignature → Minimum → Minimum
count_signature arity assignment signature m =
    if not (length signature.parameters == arity)
    then m
    else elim (assignment_cost assignment 0 signature.parameters 0) [
      | none ↦ m
      | some total_cost ↦ count_cost total_cost m
    ]

unfoldable pub count_signatures :
    ℕ → List TypeAssignment → List PrimitiveSignature → Minimum → Minimum
count_signatures arity assignment [] m = m
count_signatures arity assignment (signature ∷ rest) m =
    count_signatures arity assignment rest (count_signature arity assignment signature m)

unfoldable pub assignment_is_ambiguous : PrimitiveDescriptor → ℕ → List TypeAssignment → Bool
assignment_is_ambiguous descriptor arity assignment =
    ltb 1
      (count_signatures arity assignment descriptor.signatures
        (record { minimum_cost = size_max; minimum_count = 0 })).minimum_count

-- The recursion on `index`, with `remaining` places of `arity` left to assign.
unfoldable pub has_ambiguous_assignment :
    PrimitiveDescriptor → ℕ → ℕ → ℕ → List TypeAssignment → Bool
unfolding assignment_is_ambiguous
has_ambiguous_assignment descriptor arity zero index assignment =
    assignment_is_ambiguous descriptor arity assignment
has_ambiguous_assignment descriptor arity (suc remaining) index assignment =
    let with_type = λ (t : ScalarType). record { type = t; index = index } ∷ assignment in
    has_ambiguous_assignment descriptor arity remaining (index + 1) (with_type boolean)
    || (has_ambiguous_assignment descriptor arity remaining (index + 1) (with_type integer)
        || has_ambiguous_assignment descriptor arity remaining (index + 1)
            (with_type double_precision))
