-- ===== src/TypeArena/Equal.antt =====
-- `structural_type_equal` of src/type.cpp. It asks the host for the arrays of two validations, and
-- then for its stack of pairs of nodes.
use bennu.Prelude.{
  ℕ, zero, suc, ◌+◌, Bool, true, false, not, ◌||◌, ◌&&◌, List, [], ◌∷◌, Option, none, some, length,
  ltb, ◌>>=◌, if◌then◌else◌, ◌==◌, nat_eq,
}
use Prim.Native.Nat.{min}
use bennu.Scalar.Types.{scalar_type_eq}
use bennu.HostStorage.Registry.{
  HostResourceErrorReason, no_failure, size_overflow, allocation_unavailable,
}
use bennu.TypeArena.Types.{
  scalar, vector, tuple, TypeKind, type_kind_eq, TypeArena, TypeInvariant, no_violation, type_nodes,
}
use bennu.TypeArena.Validate.{HostAnswers, request, validate_type}
use bennu.TypeArena.Postorder.{child, node_at}

pub record TypeEqualityResult : Type 0 where
  pub ok : Bool
  pub equal : Bool
  pub invariant : TypeInvariant
  pub resource_error : HostResourceErrorReason

-- What the host answers behind some requests.
abbrev pub later : HostAnswers → ℕ → HostAnswers
later host asked = λ ordinal count. host (asked + ordinal) count

-- The requests that an accepting validation makes.
unfoldable pub validation_requests : TypeArena → ℕ
validation_requests type = if length type.child_indexes == 0 then 3 else 4

abbrev pub NodePair : Type 0
NodePair = ℕ × ℕ

unfoldable pub equality_failure : TypeInvariant → HostResourceErrorReason → TypeEqualityResult
equality_failure invariant reason = record {
  ok = false;
  equal = false;
  invariant = invariant;
  resource_error = reason;
}

unfoldable pub equality_result : Bool → TypeEqualityResult
equality_result equal = record {
  ok = true;
  equal = equal;
  invariant = no_violation;
  resource_error = no_failure;
}

-- The loop that pushes the pairs of children; nothing if the stack is full.
unfoldable pub push_pairs :
    TypeArena → TypeArena → ℕ → ℕ → ℕ → ℕ → List NodePair → Option (List NodePair)
push_pairs left right capacity left_edge right_edge zero stack = some stack
push_pairs left right capacity left_edge right_edge (suc count) stack =
    let pair : NodePair = (child left left_edge, child right right_edge) in
    let rest =
      push_pairs left right capacity (left_edge + 1) (right_edge + 1) count (pair ∷ stack) in
    if ltb (length stack) capacity then rest else none

pub data Compared : Type 0 where
  differ pairs_overflow : Compared
  compare_next : List NodePair → Compared

abbrev pub is_leaf : TypeKind → Bool
is_leaf kind = (kind == scalar) || (kind == vector)

-- The body of the loop, on the pair popped from the stack.
unfoldable pub compare_nodes : TypeArena → TypeArena → ℕ → NodePair → List NodePair → Compared
unfolding push_pairs
compare_nodes left right capacity (i, j) stack =
    let left_node = node_at left i in
    let right_node = node_at right j in
    if not (left_node.kind == right_node.kind)
    then differ
    else if is_leaf left_node.kind && not (left_node.element == right_node.element)
    then differ
    else if not (left_node.kind == tuple)
    then compare_next stack
    else if not (left_node.child_count == right_node.child_count)
    then differ
    else elim (push_pairs left right capacity left_node.first_child right_node.first_child
        left_node.child_count stack) [ none ↦ pairs_overflow | some pushed ↦ compare_next pushed ]

-- The loop on the stack; nothing if the fuel does not suffice.
unfoldable pub compare_types :
    TypeArena → TypeArena → ℕ → ℕ → List NodePair → Option TypeEqualityResult
unfolding compare_nodes equality_result equality_failure
compare_types left right capacity fuel [] = some (equality_result true)
compare_types left right capacity zero (pair ∷ stack) = none
compare_types left right capacity (suc fuel) (pair ∷ stack) =
    let go = λ (next : List NodePair). compare_types left right capacity fuel next in
    elim (compare_nodes left right capacity pair stack) [
      | differ ↦ some (equality_result false)
      | pairs_overflow ↦ some (equality_failure no_violation size_overflow)
      | compare_next next ↦ go next
    ]

abbrev pub compare_capacity : TypeArena → TypeArena → ℕ
compare_capacity left right = min (length (type_nodes left)) (length (type_nodes right))

-- What follows the validations: the loop begins with the two roots, and has fuel for every node.
unfoldable pub compare_accepted : HostAnswers → TypeArena → TypeArena → Option TypeEqualityResult
unfolding compare_types request
compare_accepted host left right =
    let capacity = compare_capacity left right in
    elim (request host 0 capacity) [
      | no_failure ↦
          if ltb 0 capacity
          then compare_types left right capacity (length (type_nodes left))
              ((left.root_index, right.root_index) ∷ [])
          else some (equality_failure no_violation size_overflow)
      | size_overflow ↦ some (equality_failure no_violation size_overflow)
      | allocation_unavailable ↦ some (equality_failure no_violation allocation_unavailable)
    ]

unfoldable pub structural_type_equal :
    HostAnswers → TypeArena → TypeArena → Option TypeEqualityResult
unfolding validate_type compare_accepted validation_requests
structural_type_equal host left right = do
  left_validation ← validate_type host left
  let behind_left = later host (validation_requests left)
  if not left_validation.ok
      then some (equality_failure left_validation.invariant left_validation.resource_error)
      else do
        right_validation ← validate_type behind_left right
        let behind_right = later behind_left (validation_requests right)
        if not right_validation.ok
            then some (equality_failure right_validation.invariant right_validation.resource_error)
            else compare_accepted behind_right left right
