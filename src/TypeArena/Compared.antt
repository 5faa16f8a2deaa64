-- ===== src/TypeArena/Compared.antt =====
-- The loop of `structural_type_equal` of src/type.cpp against the shapes of the two types.
use bennu.Prelude.{
  ℕ, zero, suc, ◌+◌, ◌≤◌, ◌≡◌, ◌≢◌, ◌⊎◌, inl, inr, refl, ap, sym, ◌∙◌, Bool, true, false, ◌&&◌,
  List, [], ◌∷◌, some, length, if◌then◌else◌, ◌==◌, nat_eq, arith, Bool-cases,
}
use Prim.Native.Nat.{min}
use bennu.Scalar.Types.{scalar_type_eq}
use bennu.TypeArena.Types.{tuple, type_kind_eq, TypeArena}
use bennu.TypeArena.Postorder.{node_at, IsGood}
use bennu.TypeArena.Shape.{size, children, children_of, shapes_at, shape_at, shape_at-node}
use bennu.TypeArena.Sizes.{
  total, offspring, length-total, length-children, size_positive, size-shape_at, size-tuple,
}
use bennu.TypeArena.Equal.{
  NodePair, Compared, differ, compare_next, is_leaf, compare_nodes, compare_types, equality_result,
}
use bennu.TypeArena.Same.{
  same_shape, same_shapes, same_shape_iff, same_shape-shape_of, pushed, push_pairs-fits, left_total,
  right_total, all_same, left_total-pushed, right_total-pushed, left_total-length,
  right_total-length, all_same-pushed, same_shapes-count,
}

module _ (left right : TypeArena) (good : (j : ℕ) → IsGood left j)
    (good' : (j : ℕ) → IsGood right j) where
  abbrev is_same : List NodePair → Bool
  is_same stack = all_same (shape_at left) (shape_at right) stack

  same_shape-nodes :
      (i j : ℕ)
      → same_shape (shape_at left i) (shape_at right j) ≡ (
          ((node_at left i).kind == (node_at right j).kind)
          && (if is_leaf (node_at left i).kind
              then (node_at left i).element == (node_at right j).element
              else same_shapes
                  (shapes_at (shape_at left) (children_of left i))
                  (shapes_at (shape_at right) (children_of right j))))
  same_shape-nodes i j =
      rw (shape_at-node left good i, shape_at-node right good' j)
        (same_shape-shape_of (node_at left i).kind (node_at right j).kind (node_at left i).element
          (node_at right j).element _ _)

  -- The loop stops at a pair that differs, or leaves fewer nodes on the stack and the same verdict.
  abbrev Advances : NodePair → List NodePair → Compared → Type 0
  Advances pair stack compared =
      ((compared ≡ differ) × (is_same (pair ∷ stack) ≡ false))
      ⊎ ((next : List NodePair) × (compared ≡ compare_next next)
          × (suc (left_total (shape_at left) next) ≡ left_total (shape_at left) (pair ∷ stack))
          × (suc (right_total (shape_at right) next) ≡ right_total (shape_at right) (pair ∷ stack))
          × (is_same next ≡ is_same (pair ∷ stack)))

  compare_nodes-leaf :
      (capacity i j : ℕ) (stack : List NodePair)
      → is_leaf (node_at left i).kind ≡ true
      → compare_nodes left right capacity (i, j) stack
        ≡ (if same_shape (shape_at left i) (shape_at right j) then compare_next stack else differ)
  unfolding compare_nodes
  compare_nodes-leaf capacity i j stack leaf = ground (arith, same_shape-nodes i j)

  size-leaf : (i : ℕ) → is_leaf (node_at left i).kind ≡ true → size (shape_at left i) ≡ 1
  unfolding offspring total
  size-leaf i leaf = ground (arith, size-shape_at left good i)

  compare_nodes-tuple :
      (capacity i j : ℕ) (stack : List NodePair)
      → (node_at left i).kind ≡ tuple
      → (node_at right j).kind ≡ tuple
      → (node_at left i).child_count ≡ (node_at right j).child_count
      → length stack + (node_at left i).child_count ≤ capacity
      → compare_nodes left right capacity (i, j) stack
        ≡ compare_next (
            pushed left right
              (node_at left i).first_child
              (node_at right j).first_child
              (node_at left i).child_count
              stack)
  unfolding compare_nodes
  compare_nodes-tuple capacity i j stack h h' same fits =
      let fitting =
        push_pairs-fits left right capacity (node_at left i).first_child
          (node_at right j).first_child (node_at left i).child_count stack fits in
      ground arith

  module _ (nodes nodes' i j : ℕ) (stack : List NodePair) where
    Fits : Type 0
    Fits =
        (left_total (shape_at left) ((i, j) ∷ stack) ≤ nodes)
        × (right_total (shape_at right) ((i, j) ∷ stack) ≤ nodes')

    pushed-room :
        Fits
        → (node_at left i).kind ≡ tuple
        → (node_at right j).kind ≡ tuple
        → (node_at left i).child_count ≡ (node_at right j).child_count
        → length stack + (node_at left i).child_count ≤ min nodes nodes'
    unfolding Fits left_total right_total
    pushed-room (fits, fits') h h' same =
        let left_node = node_at left i in
        let right_node = node_at right j in
        omega (
          arith,
          fits,
          fits',
          size-tuple left good i h,
          size-tuple right good' j h',
          left_total-length (shape_at left) stack,
          right_total-length (shape_at right) stack,
          length-total (shape_at left) (children_of left i),
          length-total (shape_at right) (children_of right j),
          length-children left left_node.first_child left_node.child_count,
          length-children right right_node.first_child right_node.child_count,
        )

    leaf-Advances :
        is_leaf (node_at left i).kind ≡ true
        → Advances (i, j) stack (compare_nodes left right (min nodes nodes') (i, j) stack)
    unfolding left_total right_total all_same
    leaf-Advances leaf =
        let compared = compare_nodes-leaf (min nodes nodes') i j stack leaf in
        elim (Bool-cases (same_shape (shape_at left i) (shape_at right j))) [
          | inl same ↦
              let one = ap size ((same_shape_iff (shape_at left i) (shape_at right j)).0 same) in
              inr (
                stack,
                compared ∙ rw same refl,
                omega (arith, size-leaf i leaf),
                omega (arith, one, size-leaf i leaf),
                rw same refl,
              )
          | inr not_same ↦ inl (compared ∙ rw not_same refl, rw not_same refl)
        ]

    tuple-Advances :
        Fits
        → (node_at left i).kind ≡ tuple
        → (node_at right j).kind ≡ tuple
        → (node_at left i).child_count ≡ (node_at right j).child_count
        → Advances (i, j) stack (compare_nodes left right (min nodes nodes') (i, j) stack)
    unfolding left_total right_total all_same
    tuple-Advances fits h h' same =
        let l = (node_at left i).first_child in
        let r = (node_at right j).first_child in
        let count = (node_at left i).child_count in
        let together : same_shape (shape_at left i) (shape_at right j)
            ≡ same_shapes (shapes_at (shape_at left) (children left l count))
                (shapes_at (shape_at right) (children right r count)) =
          same_shape-nodes i j ∙ rw (h, h', same) refl in
        inr (
          pushed left right l r count stack,
          compare_nodes-tuple (min nodes nodes') i j stack h h' same (pushed-room fits h h' same),
          omega (
            arith,
            size-tuple left good i h,
            left_total-pushed left right (shape_at left) l r count stack,
          ),
          omega (
            arith,
            size-tuple right good' j h',
            ap (λ c. total (shape_at right) (children right r c)) same,
            right_total-pushed left right (shape_at right) l r count stack,
          ),
          rw together (all_same-pushed left right (shape_at left) (shape_at right) l r count stack),
        )

    counts-differ :
        (node_at left i).kind ≡ tuple
        → (node_at right j).kind ≡ tuple
        → (node_at left i).child_count ≢ (node_at right j).child_count
        → same_shape (shape_at left i) (shape_at right j) ≡ false
    counts-differ h h' other =
        same_shape-nodes i j
        ∙ rw (h, h')
            (same_shapes-count left right (shape_at left) (shape_at right)
              (node_at left i).first_child (node_at right j).first_child
              (node_at left i).child_count (node_at right j).child_count other)

    kinds-differ :
        (node_at left i).kind ≡ tuple
        → (tuple == (node_at right j).kind) ≡ false
        → same_shape (shape_at left i) (shape_at right j) ≡ false
    kinds-differ h other = same_shape-nodes i j ∙ rw (h, other) refl

    compare_nodes-Advances :
        Fits → Advances (i, j) stack (compare_nodes left right (min nodes nodes') (i, j) stack)
    unfolding compare_nodes all_same
    compare_nodes-Advances fits = elim (Bool-cases (is_leaf (node_at left i).kind)) [
      | inl leaf ↦ leaf-Advances leaf
      | inr not_leaf ↦
          let h : (node_at left i).kind ≡ tuple = ground arith in
          elim (Bool-cases (tuple == (node_at right j).kind)) [
            | inl is_tuple ↦
                let h' : (node_at right j).kind ≡ tuple = ground arith in
                elim (Bool-cases ((node_at left i).child_count == (node_at right j).child_count)) [
                  | inl same ↦ tuple-Advances fits h h' (ground arith)
                  | inr other ↦
                      let apart = counts-differ h h' (λ e. (ground arith)) in
                      inl (ground arith, rw apart refl)
                ]
            | inr other ↦ let apart = kinds-differ h other in inl (ground arith, rw apart refl)
          ]
    ]

  compare_types-differ :
      (capacity fuel : ℕ) (pair : NodePair) (stack : List NodePair)
      → compare_nodes left right capacity pair stack ≡ differ
      → compare_types left right capacity (suc fuel) (pair ∷ stack) ≡ some (equality_result false)
  unfolding compare_types
  compare_types-differ capacity fuel pair stack e = ground arith

  compare_types-next :
      (capacity fuel : ℕ) (pair : NodePair) (stack next : List NodePair)
      → compare_nodes left right capacity pair stack ≡ compare_next next
      → compare_types left right capacity (suc fuel) (pair ∷ stack)
        ≡ compare_types left right capacity fuel next
  unfolding compare_types
  compare_types-next capacity fuel pair stack next e = ground arith

  -- With fuel for every node, the loop ends with the comparison of the shapes on its stack.
  pub compare_types-same :
      (nodes nodes' fuel : ℕ) (stack : List NodePair)
      → left_total (shape_at left) stack ≤ fuel
      → left_total (shape_at left) stack ≤ nodes
      → right_total (shape_at right) stack ≤ nodes'
      → compare_types left right (min nodes nodes') fuel stack
        ≡ some (equality_result (is_same stack))
  unfolding compare_types left_total right_total all_same Fits
  compare_types-same nodes nodes' fuel [] enough fits fits' = refl
  compare_types-same nodes nodes' zero ((i, j) ∷ stack) enough fits fits' =
      absurd (omega (arith, size_positive (shape_at left i)))
  compare_types-same nodes nodes' (suc fuel) ((i, j) ∷ stack) enough fits fits' =
      elim (compare_nodes-Advances nodes nodes' i j stack (fits, fits')) [
        | inl (stopped, apart) ↦
            compare_types-differ (min nodes nodes') fuel (i, j) stack stopped
            ∙ ap (λ b. some (equality_result b)) (sym apart)
        | inr (next, on, fewer, fewer', same) ↦
            compare_types-next (min nodes nodes') fuel (i, j) stack next on
            ∙ compare_types-same nodes nodes' fuel next (omega arith) (omega arith) (omega arith)
            ∙ ap (λ b. some (equality_result b)) same
      ]
