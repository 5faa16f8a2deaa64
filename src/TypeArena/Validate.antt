-- ===== src/TypeArena/Validate.antt =====
-- `validate_type` of src/type.cpp. The four arrays of the walk are lists; what the host answers to
-- each request for one is a parameter, by the request's number and its count of elements.
use bennu.Prelude.{
  ℕ, zero, suc, ◌+◌, ◌-◌, ◌%◌, ◌^◌, Bool, true, false, not, ◌||◌, List, [], ◌∷◌, Option, none, some,
  length, get_elem?, ltb, leb, if◌then◌else◌, ◌==◌, nat_eq,
}
use bennu.Scalar.Types.{boolean, scalar_type_eq}
use bennu.HostStorage.Registry.{
  HostResourceErrorReason, no_failure, size_overflow, allocation_unavailable,
}
use bennu.TypeArena.Types.{
  scalar, vector, tuple, TypeNode, TypeArena, type_nodes, invalid_type_root, nonfinal_type_root,
  inactive_type_field, invalid_tuple_range, overlapping_tuple_range, invalid_tuple_child_index,
  non_postorder_tuple_child, aliased_tuple_child, orphan_type_node, orphan_tuple_edge,
  TypeValidationResult, valid_type, invalid_type, type_resource_failure,
}
use bennu.Primitive.Select.{size_max}

abbrev pub HostAnswers : Type 0
HostAnswers = ℕ → ℕ → HostResourceErrorReason

module _ {ℓ} {A : Type ℓ} where
  -- An element, or the value given for an index outside the array, which the code never reads.
  unfoldable pub read : List A → A → ℕ → A
  read xs outside i = elim (get_elem? xs i) [ none ↦ outside | some x ↦ x ]

  unfoldable pub write : List A → ℕ → A → List A
  write [] i a = []
  write (x ∷ xs) zero a = a ∷ xs
  write (x ∷ xs) (suc i) a = x ∷ write xs i a

  -- `host_array_fill`
  unfoldable pub fill : ℕ → A → List A
  fill zero a = []
  fill (suc count) a = a ∷ fill count a

pub record Claims : Type 0 where
  pub edge_owners : List Bool
  pub parent_counts : List ℕ

pub data Claimed : Type 0 where
  refused_claim : TypeValidationResult → Claimed
  claims : Claims → Claimed

-- The loop over the children of a tuple, from an edge on.
unfoldable pub claim_children : TypeArena → ℕ → ℕ → ℕ → Claims → Claimed
claim_children type node_index edge_index zero c = claims c
claim_children type node_index edge_index (suc count) c =
    let child_index = read type.child_indexes 0 edge_index in
    let parents = (read c.parent_counts 0 child_index + 1) % 2 ^ 8 in
    let rest = claim_children type node_index (edge_index + 1) count (record {
      edge_owners = write c.edge_owners edge_index true;
      parent_counts = write c.parent_counts child_index parents;
    }) in
    if read c.edge_owners true edge_index
    then refused_claim (invalid_type overlapping_tuple_range node_index edge_index)
    else if leb (length (type_nodes type)) child_index
    then refused_claim (invalid_type invalid_tuple_child_index node_index edge_index)
    else if leb node_index child_index
    then refused_claim (invalid_type non_postorder_tuple_child node_index edge_index)
    else if not (parents == 1)
    then refused_claim (invalid_type aliased_tuple_child child_index edge_index)
    else rest

-- The loop that pushes the children, the last one first; nothing if the stack is full.
unfoldable pub push_children : TypeArena → ℕ → ℕ → List ℕ → Option (List ℕ)
push_children type first_child zero stack = some stack
push_children type first_child (suc offset) stack =
    let rest =
      push_children type first_child offset
        (read type.child_indexes 0 (first_child + offset) ∷ stack) in
    if ltb (length stack) (length type.child_indexes + 1) then rest else none

pub record Walk : Type 0 where
  pub checked : Claims
  pub stack : List ℕ

pub data Visited : Type 0 where
  refused_node : TypeValidationResult → Visited
  go_on : Walk → Visited

unfoldable pub visit_leaf : TypeNode → ℕ → Walk → Visited
visit_leaf node node_index w =
    if not (node.first_child == 0) || not (node.child_count == 0)
    then refused_node (invalid_type inactive_type_field node_index 0)
    else go_on w

unfoldable pub visit_tuple : TypeArena → TypeNode → ℕ → Walk → Visited
unfolding claim_children push_children
visit_tuple type node node_index w =
    if not (node.element == boolean)
    then refused_node (invalid_type inactive_type_field node_index 0)
    else if ltb (length type.child_indexes) node.first_child
        || ltb (length type.child_indexes - node.first_child) node.child_count
    then refused_node (invalid_type invalid_tuple_range node_index node.first_child)
    else elim (claim_children type node_index node.first_child node.child_count w.checked) [
      | refused_claim r ↦ refused_node r
      | claims c ↦ elim (push_children type node.first_child node.child_count w.stack) [
        | none ↦ refused_node (type_resource_failure size_overflow)
        | some stack ↦ go_on (record { checked = c; stack = stack })
      ]
    ]

-- The switch on the kind of the node.
unfoldable pub visit_node : TypeArena → TypeNode → ℕ → Walk → Visited
unfolding visit_leaf visit_tuple
visit_node type node node_index w = elim node.kind [
  | scalar ↦ visit_leaf node node_index w
  | vector ↦ visit_leaf node node_index w
  | tuple ↦ visit_tuple type node node_index w
]

-- The index of the first element that is still false.
unfoldable pub first_unset : List Bool → ℕ → Option ℕ
first_unset [] index = none
first_unset (b ∷ bs) index = let rest = first_unset bs (index + 1) in if b then rest else some index

-- The two loops behind the walk.
unfoldable pub find_orphans : List Bool → List Bool → TypeValidationResult
find_orphans visited edge_owners = elim (first_unset visited 0) [
  | some index ↦ invalid_type orphan_type_node index 0
  | none ↦ elim (first_unset edge_owners 0) [
    | some index ↦ invalid_type orphan_tuple_edge 0 index
    | none ↦ valid_type
  ]
]

abbrev pub no_node : TypeNode
no_node = record { kind = scalar; element = boolean; first_child = 0; child_count = 0 }

-- The loop on the stack; nothing if the fuel does not suffice.
unfoldable pub walk_types :
    TypeArena → ℕ → List Bool → Claims → List ℕ → Option TypeValidationResult
unfolding visit_node find_orphans
walk_types type fuel visited c [] = some (find_orphans visited c.edge_owners)
walk_types type zero visited c (node_index ∷ stack) = none
walk_types type (suc fuel) visited c (node_index ∷ stack) =
    let node = read (type_nodes type) no_node node_index in
    let go = λ (w : Walk). walk_types type fuel (write visited node_index true) w.checked w.stack in
    if read visited true node_index
    then some (invalid_type aliased_tuple_child node_index 0)
    else elim (visit_node type node node_index (record { checked = c; stack = stack })) [
      | refused_node r ↦ some r
      | go_on w ↦ go w
    ]

-- The requests for the four arrays, in their order; an empty array needs none of the host.
unfoldable pub request : HostAnswers → ℕ → ℕ → HostResourceErrorReason
request host ordinal count = if count == 0 then no_failure else host ordinal count

unfoldable pub first_failure :
    HostResourceErrorReason → HostResourceErrorReason → HostResourceErrorReason
first_failure no_failure second = second
first_failure size_overflow second = size_overflow
first_failure allocation_unavailable second = allocation_unavailable

unfoldable pub allocate_walk : HostAnswers → TypeArena → HostResourceErrorReason
unfolding request first_failure
allocate_walk host type =
    let nodes = length (type_nodes type) in
    let edges = length type.child_indexes in
    let after_edges = if edges == 0 then 1 else 2 in
    first_failure (request host 0 nodes) (
      first_failure (request host 1 edges) (
        first_failure (request host after_edges nodes)
          (request host (after_edges + 1) (edges + 1))))

abbrev pub has_both : TypeArena → Bool
has_both type = elim type.inline_leaf [ none ↦ false | some leaf ↦ not (length type.nodes == 0) ]

-- The walk begins with the root on the stack, and has fuel for every node and one more pass.
unfoldable pub start_walk : TypeArena → Option TypeValidationResult
unfolding walk_types
start_walk type =
    let nodes = length (type_nodes type) in
    walk_types type (nodes + 1) (fill nodes false)
      (record {
        edge_owners = fill (length type.child_indexes) false;
        parent_counts = fill nodes 0;
      })
      (type.root_index ∷ [])

unfoldable pub validate_type : HostAnswers → TypeArena → Option TypeValidationResult
unfolding start_walk allocate_walk
validate_type host type =
    let nodes = length (type_nodes type) in
    if has_both type || leb nodes type.root_index
    then some (invalid_type invalid_type_root type.root_index 0)
    else if not (type.root_index == nodes - 1)
    then some (invalid_type nonfinal_type_root type.root_index 0)
    else if length type.child_indexes == size_max
    then some (type_resource_failure size_overflow)
    else elim (allocate_walk host type) [
      | no_failure ↦ start_walk type
      | size_overflow ↦ some (type_resource_failure size_overflow)
      | allocation_unavailable ↦ some (type_resource_failure allocation_unavailable)
    ]
