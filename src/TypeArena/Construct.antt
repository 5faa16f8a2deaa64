-- ===== src/TypeArena/Construct.antt =====
-- `clone_type` and `make_tuple_type` of src/type.cpp.
use bennu.Prelude.{
  ℕ, ◌+◌, ◌-◌, Bool, true, false, not, ◌||◌, List, [], ◌∷◌, Option, none, some, length, ltb, ◌>>=◌,
  if◌then◌else◌, ◌==◌, nat_eq, map,
}
use bennu.Scalar.Types.{boolean}
use bennu.HostStorage.Registry.{
  HostResourceErrorReason, no_failure, size_overflow, allocation_unavailable,
}
use bennu.Primitive.Select.{size_max}
use bennu.TypeArena.Types.{
  TypeNode, TypeArena, TypeInvariant, type_kind_eq, tuple, no_violation, type_nodes,
  TypeValidationResult,
}
use bennu.TypeArena.Validate.{HostAnswers, request, first_failure, validate_type}
use bennu.TypeArena.Arrays.{push_all}
use bennu.TypeArena.Equal.{later, validation_requests}

pub record TypeConstructionResult : Type 0 where
  pub ok : Bool
  pub type : TypeArena
  pub invariant : TypeInvariant
  pub resource_error : HostResourceErrorReason

abbrev pub empty_type : TypeArena
empty_type = record { nodes = []; child_indexes = []; root_index = 0; inline_leaf = none }

unfoldable pub refused_type : TypeValidationResult → TypeConstructionResult
refused_type validation = record {
  ok = false;
  type = empty_type;
  invariant = validation.invariant;
  resource_error = validation.resource_error;
}

unfoldable pub type_construction_failure : HostResourceErrorReason → TypeConstructionResult
type_construction_failure reason = record {
  ok = false;
  type = empty_type;
  invariant = no_violation;
  resource_error = reason;
}

unfoldable pub constructed_type : TypeArena → TypeConstructionResult
constructed_type type = record {
  ok = true;
  type = type;
  invariant = no_violation;
  resource_error = no_failure;
}

-- The result of a construction whose pushes may have found an array full.
abbrev pub construction : Option TypeArena → TypeConstructionResult
construction none = type_construction_failure size_overflow
construction (some type) = constructed_type type

-- The two loops of `clone_type` that copy the nodes and the edges.
unfoldable pub copy_arrays : TypeArena → Option TypeArena
unfolding push_all
copy_arrays type = do
  nodes ← push_all (length (type_nodes type)) [] (type_nodes type)
  child_indexes ← push_all (length type.child_indexes) [] type.child_indexes
  some (record {
    nodes = nodes;
    child_indexes = child_indexes;
    root_index = type.root_index;
    inline_leaf = none;
  })

unfoldable pub clone_accepted : HostAnswers → TypeArena → TypeConstructionResult
unfolding copy_arrays constructed_type type_construction_failure request first_failure
clone_accepted host type = elim type.inline_leaf [
  | some leaf ↦
      constructed_type
        (record { nodes = []; child_indexes = []; root_index = 0; inline_leaf = some leaf })
  | none ↦
      elim (first_failure (request host 0 (length (type_nodes type)))
        (request host 1 (length type.child_indexes))) [
          | no_failure ↦ construction (copy_arrays type)
          | size_overflow ↦ type_construction_failure size_overflow
          | allocation_unavailable ↦ type_construction_failure allocation_unavailable
        ]
]

unfoldable pub clone_type : HostAnswers → TypeArena → Option TypeConstructionResult
unfolding validate_type clone_accepted validation_requests refused_type
clone_type host type = do
  validation ← validate_type host type
  some (
      if not validation.ok
      then refused_type validation
      else clone_accepted (later host (validation_requests type)) type)

pub record ElementCounts : Type 0 where
  pub nodes : ℕ
  pub edges : ℕ

pub data Measured : Type 0 where
  unmeasured : TypeConstructionResult → Measured
  measured : HostAnswers → ElementCounts → Measured

-- The loop that validates the elements and adds up their sizes; the host's answers are those behind
-- the validations so far.
unfoldable pub measure_elements : HostAnswers → List TypeArena → ElementCounts → Option Measured
unfolding validate_type validation_requests refused_type type_construction_failure
measure_elements host [] counts = some (measured host counts)
measure_elements host (element ∷ elements) counts =
    let nodes = length (type_nodes element) in
    let edges = length element.child_indexes in
    let rest =
      measure_elements (later host (validation_requests element)) elements
        (record { nodes = counts.nodes + nodes; edges = counts.edges + edges }) in
    validate_type host element >>= (λ validation.
      if not validation.ok
      then some (unmeasured (refused_type validation))
      else if ltb (size_max - counts.nodes) nodes || ltb (size_max - counts.edges) edges
      then some (unmeasured (type_construction_failure size_overflow))
      else rest)

-- The three arrays of `make_tuple_type`.
pub record Gathered : Type 0 where
  pub nodes : List TypeNode
  pub child_indexes : List ℕ
  pub roots : List ℕ

unfoldable pub moved_node : ℕ → TypeNode → TypeNode
moved_node edge_offset node =
    if node.kind == tuple
    then record node { first_child = node.first_child + edge_offset }
    else node

-- The body of the loop that gathers the elements.
unfoldable pub gather_element : ElementCounts → ℕ → TypeArena → Gathered → Option Gathered
unfolding push_all moved_node
gather_element counts elements element g =
    let node_offset = length g.nodes in
    let edge_offset = length g.child_indexes in
    do
      nodes ← push_all counts.nodes g.nodes (map (moved_node edge_offset) (type_nodes element))
      child_indexes ←
          push_all counts.edges g.child_indexes
            (map (λ child_index. child_index + node_offset) element.child_indexes)
      roots ← push_all elements g.roots ((element.root_index + node_offset) ∷ [])
      some (record { nodes = nodes; child_indexes = child_indexes; roots = roots })

unfoldable pub gather_elements : ElementCounts → ℕ → List TypeArena → Gathered → Option Gathered
unfolding gather_element
gather_elements counts elements [] g = some g
gather_elements counts elements (element ∷ rest) g =
    gather_element counts elements element g >>= (λ next. gather_elements counts elements rest next)

-- What follows the loop: the edges to the elements and the node of the tuple.
unfoldable pub close_tuple : ElementCounts → Gathered → Option TypeArena
unfolding push_all
close_tuple counts g = do
  child_indexes ← push_all counts.edges g.child_indexes g.roots
  nodes ← push_all counts.nodes g.nodes (
      record {
        kind = tuple;
        element = boolean;
        first_child = length g.child_indexes;
        child_count = length g.roots;
      }
      ∷ [])
  some (record {
    nodes = nodes;
    child_indexes = child_indexes;
    root_index = length nodes - 1;
    inline_leaf = none;
  })

-- The requests for the three arrays, in their order.
unfoldable pub allocate_tuple : HostAnswers → ElementCounts → ℕ → HostResourceErrorReason
unfolding request first_failure
allocate_tuple host counts elements =
    let after_edges = if counts.edges == 0 then 1 else 2 in
    first_failure (request host 0 counts.nodes)
      (first_failure (request host 1 counts.edges) (request host after_edges elements))

unfoldable pub build_tuple : HostAnswers → ElementCounts → List TypeArena → TypeConstructionResult
unfolding allocate_tuple gather_elements close_tuple type_construction_failure constructed_type
build_tuple host counts elements = elim (allocate_tuple host counts (length elements)) [
  | no_failure ↦ construction (
      gather_elements counts (length elements) elements
        (record { nodes = []; child_indexes = []; roots = [] })
      >>= (λ g. close_tuple counts g))
  | size_overflow ↦ type_construction_failure size_overflow
  | allocation_unavailable ↦ type_construction_failure allocation_unavailable
]

unfoldable pub make_tuple_type : HostAnswers → List TypeArena → Option TypeConstructionResult
unfolding measure_elements build_tuple
make_tuple_type host elements =
    measure_elements host elements (record { nodes = 1; edges = length elements }) >>= (λ m.
      some (elim m [
        | unmeasured result ↦ result
        | measured answers counts ↦ build_tuple answers counts elements
      ]))
