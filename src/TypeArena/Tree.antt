-- ===== src/TypeArena/Tree.antt =====
-- The parents of nodes and the owners of edges in `validate_type` of src/type.cpp.
use bennu.Prelude.{
  ℕ, zero, suc, ◌+◌, ◌<◌, ◌≡◌, inl, inr, ap, ◌∙◌, Bool, true, false, ◌&&◌, List, [], ◌∷◌, some,
  length, ltb, leb, if◌then◌else◌, ◌==◌, nat_eq, arith,
}
use mathlib.Core.Option.{some-injective}
use bennu.TypeArena.Types.{TypeArena, type_kind_eq, tuple, type_nodes, TypeValidationResult}
use bennu.TypeArena.Validate.{
  HostAnswers, write, fill, Claims, claims, claim_children, Walk, go_on, visit_leaf, visit_tuple,
  visit_node, walk_types, validate_type, start_walk,
}
use bennu.TypeArena.Postorder.{node_at, IsGood, next_claims, claim_children-next}
use bennu.TypeArena.Counts.{
  occurrences, sum_from, occurrences-++, unset, unset_sum, unset_sum-visit, unset-write,
  to_visit-unset, to_visit-unset_sum, unset_sum-fill, unset-fill,
}
use bennu.TypeArena.Accepted.{walk_types-step, validate_type-IsGood, validate_type-start}
use bennu.TypeArena.Shape.{children_of}
use bennu.TypeArena.Sizes.{
  offspring, visit_tuple-parts, visit_leaf-same, visit_node-Steps, find_orphans-all,
  claim_children-fresh, TypeKind-cases,
}

-- The edges from a node to another.
unfoldable pub edges_between : TypeArena → ℕ → ℕ → ℕ
unfolding occurrences offspring
edges_between type i j = occurrences j (offspring (node_at type i).kind (children_of type i))

-- Whether the edge is one of the tuple's, as a number.
unfoldable pub owns : TypeArena → ℕ → ℕ → ℕ
owns type i edge =
    let node = node_at type i in
    if node.kind == tuple
      && (leb node.first_child edge && ltb edge (node.first_child + node.child_count))
    then 1
    else 0

-- The edges that go to a node, and the tuples that have an edge.
abbrev pub parents : TypeArena → ℕ → ℕ
parents type j = sum_from (λ i. edges_between type i j) 0 (length (type_nodes type))

abbrev pub owners : TypeArena → ℕ → ℕ
owners type edge = sum_from (λ i. owns type i edge) 0 (length (type_nodes type))

-- The arena is a tree: its root is its last node and is no node's child, every other node is the
-- child of one node, by one edge, and stands before it, and each edge is one tuple's.
pub record IsTree (type : TypeArena) : Type 0 where
  pub root_is_last : type.root_index + 1 ≡ length (type_nodes type)
  pub root_alone : parents type type.root_index ≡ 0
  pub one_parent : (j : ℕ) → j < type.root_index → parents type j ≡ 1
  pub parent_behind : (i : ℕ) → IsGood type i
  pub one_owner : (edge : ℕ) → edge < length type.child_indexes → owners type edge ≡ 1

-- The claims of a tuple take its edges, each for the first time.
claim_children-unset :
    (type : TypeArena) (i edge count e : ℕ) (c : Claims) {c' : Claims}
    → claim_children type i edge count c ≡ claims c'
    → unset c.edge_owners e
      ≡ unset c'.edge_owners e + (if leb edge e && ltb e (edge + count) then 1 else 0)
unfolding claim_children
claim_children-unset type i edge zero e c h = ground arith
claim_children-unset type i edge (suc count) e c h =
    let rest =
      claim_children-unset type i (edge + 1) count e (next_claims type edge c)
        (claim_children-next type i edge count c h) in
    let here = unset-write c.edge_owners edge e (claim_children-fresh type i edge count c h) in
    ground arith

visit_node-unset :
    (type : TypeArena) (i e : ℕ) (w : Walk) {w' : Walk}
    → visit_node type (node_at type i) i w ≡ go_on w'
    → unset w.checked.edge_owners e ≡ unset w'.checked.edge_owners e + owns type i e
unfolding visit_node owns
visit_node-unset type i e w {w'} on =
    let node = node_at type i in
    elim (TypeKind-cases node.kind) [
      | inl (inl leaf) ↦
          let same : visit_leaf node i w ≡ go_on w' = (rw leaf at (on)) in
          rw (leaf, visit_leaf-same node i w same) (omega arith)
      | inl (inr leaf) ↦
          let same : visit_leaf node i w ≡ go_on w' = (rw leaf at (on)) in
          rw (leaf, visit_leaf-same node i w same) (omega arith)
      | inr is_tuple ↦
          let tupled : visit_tuple type node i w ≡ go_on w' = (rw is_tuple at (on)) in
          let (claimed, pushed) = visit_tuple-parts type node i w tupled in
          rw is_tuple
            (claim_children-unset type i node.first_child node.child_count e w.checked claimed)
    ]

module _ (type : TypeArena) where
  abbrev Counts : ℕ → ℕ → List Bool → Claims → List ℕ → Type 0
  Counts j e visited c stack =
      (unset_sum (λ i. edges_between type i j) visited 0 + occurrences j stack ≡ unset visited j)
      × (unset_sum (λ i. owns type i e) visited 0 ≡ unset c.edge_owners e)

  walk_types-Counts :
      (j e fuel : ℕ) (visited : List Bool) (c : Claims) (stack : List ℕ) (r : TypeValidationResult)
      → r.ok ≡ true
      → walk_types type fuel visited c stack ≡ some r
      → Counts j e visited c stack
  unfolding walk_types occurrences edges_between
  walk_types-Counts j e fuel visited c [] r ok h =
      let (nodes, edges) =
        find_orphans-all visited c.edge_owners
          (ap (λ (x : TypeValidationResult). x.ok) (some-injective _ _ h) ∙ ok) in
      (
        omega (
          arith,
          to_visit-unset visited j nodes,
          to_visit-unset_sum (λ i. edges_between type i j) visited 0 nodes,
        ),
        omega (
          arith,
          to_visit-unset c.edge_owners e edges,
          to_visit-unset_sum (λ i. owns type i e) visited 0 nodes,
        ),
      )
  walk_types-Counts j e zero visited c (i ∷ stack) r ok h = absurd cc
  walk_types-Counts j e (suc fuel) visited c (i ∷ stack) r ok h =
      let (fresh, w, on, rest) = walk_types-step type fuel visited c i stack r ok h in
      let before : Walk = record { checked = c; stack = stack } in
      let (below, counted) = visit_node-Steps type (node_at type i) i before on in
      let (nodes, edges) =
        walk_types-Counts j e fuel (write visited i true) w.checked w.stack r ok rest in
      let is = offspring (node_at type i).kind (children_of type i) in
      let sums = ap (occurrences j) below ∙ occurrences-++ j is stack in
      (
        omega (
          arith,
          nodes,
          sums,
          unset-write visited i j fresh,
          unset_sum-visit (λ i. edges_between type i j) visited i fresh,
        ),
        omega (
          arith,
          edges,
          visit_node-unset type i e before on,
          unset_sum-visit (λ i. owns type i e) visited i fresh,
        ),
      )

start_walk-Counts :
    (type : TypeArena) (r : TypeValidationResult) (j e : ℕ)
    → r.ok ≡ true
    → start_walk type ≡ some r
    → (j < length (type_nodes type) → parents type j + (if type.root_index == j then 1 else 0) ≡ 1)
      × (e < length type.child_indexes → owners type e ≡ 1)
unfolding start_walk occurrences
start_walk-Counts type r j e ok walked =
    let nodes = length (type_nodes type) in
    let (into, owned) =
      walk_types-Counts type j e (nodes + 1) (fill nodes false)
        (record {
          edge_owners = fill (length type.child_indexes) false;
          parent_counts = fill nodes 0;
        })
        (type.root_index ∷ []) r ok walked in
    (
      λ inside. omega (
        arith,
        into,
        unset-fill nodes j inside,
        unset_sum-fill (λ i. edges_between type i j) nodes 0,
      ),
      λ inside. omega (
        arith,
        owned,
        unset-fill (length type.child_indexes) e inside,
        unset_sum-fill (λ i. owns type i e) nodes 0,
      ),
    )

-- An arena that the validation accepts is a tree: the root is the last node and no node's child, each
-- other node is the child of exactly one node, by exactly one edge, and stands before it, and each
-- edge belongs to exactly one tuple.
pub validate_type-IsTree :
    (host : HostAnswers) (type : TypeArena) (r : TypeValidationResult)
    → validate_type host type ≡ some r
    → r.ok ≡ true
    → IsTree type
validate_type-IsTree host type r e ok =
    let (at_end, walked) = validate_type-start host type r e ok in
    record {
      root_is_last = at_end;
      root_alone =
          let counted =
            (start_walk-Counts type r type.root_index 0 ok walked).0 (omega (arith, at_end)) in
          ground arith;
      one_parent = λ j before.
          let counted =
            (start_walk-Counts type r j 0 ok walked).0 (omega (arith, at_end, before)) in
          ground (arith);
      parent_behind = validate_type-IsGood host type r e ok;
      one_owner = λ edge inside. (start_walk-Counts type r 0 edge ok walked).1 inside;
    }
