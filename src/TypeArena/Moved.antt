-- ===== src/TypeArena/Moved.antt =====
-- An arena that `make_tuple_type` of src/type.cpp has copied into a larger one.
use bennu.Prelude.{
  ℕ, zero, suc, ◌+◌, ◌<◌, ◌≤◌, ◌≡◌, refl, ap, ◌∙◌, List, ◌++◌, length, arith, map, Bool-cases, inl,
  inr, ◌==◌,
}
use bennu.TypeArena.Types.{TypeArena, TypeNode, type_kind_eq, tuple, type_nodes}
use bennu.TypeArena.Validate.{no_node}
use bennu.TypeArena.Postorder.{child, node_at, IsGood, IsInRange}
use bennu.TypeArena.Shape.{Shapes, children, shapes_at, shape_of, shape_of-ext, shape_down}
use bennu.TypeArena.Arrays.{Extends, read-Extends, read-map, length-map}
use bennu.TypeArena.Construct.{moved_node}

moved_node-shape :
    (f g : ℕ → ℕ → Shapes) (offset : ℕ) (node : TypeNode)
    → (node.kind ≡ tuple
        → f (node.first_child + offset) node.child_count ≡ g node.first_child node.child_count)
    → let moved = moved_node offset node in
      shape_of moved.kind moved.element (f moved.first_child moved.child_count)
      ≡ shape_of node.kind node.element (g node.first_child node.child_count)
unfolding moved_node
moved_node-shape f g offset node same = elim (Bool-cases (node.kind == tuple)) [
  | inl is_tuple ↦ rw is_tuple (shape_of-ext node.kind node.element _ _ (λ k. same k))
  | inr leaf ↦ rw leaf (shape_of-ext node.kind node.element _ _ (λ k. absurd (ground arith)))
]

module _ (type element : TypeArena) (nodes : List TypeNode) (edges : List ℕ)
    (has_nodes : Extends
      (nodes ++ map (moved_node (length edges)) (type_nodes element))
      (type_nodes type))
    (has_edges : Extends
      (edges ++ map (λ child_index. child_index + length nodes) element.child_indexes)
      type.child_indexes)
    (good : (j : ℕ) → IsGood element j) (inside : (j : ℕ) → IsInRange element j) where
  moved_child :
      (edge : ℕ)
      → edge < length element.child_indexes
      → child type (edge + length edges) ≡ child element edge + length nodes
  moved_child edge h =
      let moved = map (λ child_index. child_index + length nodes) element.child_indexes in
      read-Extends 0 edges moved type.child_indexes edge has_edges (
        omega
          (arith, h, length-map (λ child_index. child_index + length nodes) element.child_indexes))
      ∙ read-map (λ child_index. child_index + length nodes) 0 0 element.child_indexes edge h

  moved_shapes :
      (d edge count : ℕ)
      → ((i : ℕ)
          → i < length (type_nodes element)
          → shape_down type d (i + length nodes) ≡ shape_down element d i)
      → ((k : ℕ) → k < count → child element (edge + k) < length (type_nodes element))
      → edge + count ≤ length element.child_indexes
      → shapes_at (λ j. shape_down type d j) (children type (edge + length edges) count)
        ≡ shapes_at (λ j. shape_down element d j) (children element edge count)
  unfolding shapes_at children
  moved_shapes d edge zero same below h = refl
  moved_shapes d edge (suc count) same below h =
      let here : edge + 0 ≡ edge = omega arith in
      let first : shape_down type d (child type (edge + length edges))
          ≡ shape_down element d (child element edge) =
        ap (λ j. shape_down type d j) (moved_child edge (omega arith))
        ∙ same (child element edge) (rw here at (below 0 (omega arith))) in
      let next : edge + length edges + 1 ≡ edge + 1 + length edges = omega arith in
      let rest =
        moved_shapes d (edge + 1) count same
          (λ k below_count.
            let at : edge + 1 + k ≡ edge + suc k = omega arith in
            rw at (below (suc k) (omega arith)))
          (omega arith) in
      rw (first, next, rest) refl

  moved_at :
      (i : ℕ)
      → i < length (type_nodes element)
      → node_at type (i + length nodes) ≡ moved_node (length edges) (node_at element i)
  moved_at i h =
      read-Extends no_node nodes (map (moved_node (length edges)) (type_nodes element))
        (type_nodes type) i has_nodes
        (omega (arith, h, length-map (moved_node (length edges)) (type_nodes element)))
      ∙ read-map (moved_node (length edges)) no_node no_node (type_nodes element) i h

  -- A node of the copy has the shape of the node that it copies.
  pub moved-shape_down :
      (d i : ℕ)
      → i < length (type_nodes element)
      → shape_down type d (i + length nodes) ≡ shape_down element d i
  unfolding shape_down
  moved-shape_down zero i h = refl
  moved-shape_down (suc d) i h =
      ap
        (λ (n : TypeNode).
          shape_of n.kind n.element
            (shapes_at (λ j. shape_down type d j) (children type n.first_child n.child_count)))
        (moved_at i h)
      ∙ moved_node-shape
          (λ edge count. shapes_at (λ j. shape_down type d j) (children type edge count))
          (λ edge count. shapes_at (λ j. shape_down element d j) (children element edge count))
          (length edges) (node_at element i)
          (λ is_tuple.
            moved_shapes d (node_at element i).first_child (node_at element i).child_count
              (moved-shape_down d) (λ k below. let before = good i is_tuple k below in omega arith)
              (inside i is_tuple))
