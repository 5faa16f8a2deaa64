-- ===== src/TypeArena/Shape.antt =====
-- The tree that a type's arena stands for, as the walks of src/type.cpp read it.
use bennu.Prelude.{ℕ, zero, suc, ◌+◌, ◌<◌, ◌≡◌, refl, ap, List, [], ◌∷◌, arith}
use bennu.Scalar.Types.{ScalarType, boolean}
use bennu.TypeArena.Types.{TypeArena, TypeKind, scalar, vector, tuple}
use bennu.TypeArena.Postorder.{child, node_at, IsGood}

mutual
  pub data Shape : Type 0 where
    scalar_shape vector_shape : ScalarType → Shape
    tuple_shape : Shapes → Shape

  pub data Shapes : Type 0 where
    nil : Shapes
    cons : Shape → Shapes → Shapes

-- The number of its nodes.
unfoldable mutual
  pub size : Shape → ℕ
  size (scalar_shape element) = 1
  size (vector_shape element) = 1
  size (tuple_shape elements) = suc (size_all elements)

  pub size_all : Shapes → ℕ
  size_all nil = 0
  size_all (cons shape rest) = size shape + size_all rest

-- The indexes of a tuple's children, in order.
unfoldable pub children : TypeArena → ℕ → ℕ → List ℕ
children type edge zero = []
children type edge (suc count) = child type edge ∷ children type (edge + 1) count

unfoldable pub shapes_at : (ℕ → Shape) → List ℕ → Shapes
shapes_at f [] = nil
shapes_at f (i ∷ is) = cons (f i) (shapes_at f is)

unfoldable pub shape_of : TypeKind → ScalarType → Shapes → Shape
shape_of scalar element elements = scalar_shape element
shape_of vector element elements = vector_shape element
shape_of tuple element elements = tuple_shape elements

abbrev pub children_of : TypeArena → ℕ → List ℕ
children_of type i = children type (node_at type i).first_child (node_at type i).child_count

-- The shape of a node, down to a depth.
unfoldable pub shape_down : TypeArena → ℕ → ℕ → Shape
unfolding children shapes_at shape_of
shape_down type zero i = scalar_shape boolean
shape_down type (suc depth) i =
    shape_of (node_at type i).kind (node_at type i).element
      (shapes_at (λ j. shape_down type depth j) (children_of type i))

-- In an arena with children before parents, no path from a node is longer than its index.
unfoldable pub shape_at : TypeArena → ℕ → Shape
unfolding shape_down
shape_at type i = shape_down type (suc i) i

unfoldable pub type_shape : TypeArena → Shape
unfolding shape_at
type_shape type = shape_at type type.root_index

shapes_at-children :
    (type : TypeArena) (f g : ℕ → Shape) (edge count : ℕ)
    → ((k : ℕ) → k < count → f (child type (edge + k)) ≡ g (child type (edge + k)))
    → shapes_at f (children type edge count) ≡ shapes_at g (children type edge count)
unfolding shapes_at children
shapes_at-children type f g edge zero same = refl
shapes_at-children type f g edge (suc count) same =
    let here : edge + 0 ≡ edge = omega arith in
    let first : f (child type edge) ≡ g (child type edge) = (rw here at (same 0 (omega arith))) in
    let rest = shapes_at-children type f g (edge + 1) count (λ k h.
      let at : edge + 1 + k ≡ edge + suc k = omega arith in rw at (same (suc k) (omega arith))) in
    rw (first, rest) refl

pub shape_of-ext :
    (kind : TypeKind) (element : ScalarType) (s s' : Shapes)
    → (kind ≡ tuple → s ≡ s')
    → shape_of kind element s ≡ shape_of kind element s'
unfolding shape_of
shape_of-ext scalar element s s' h = refl
shape_of-ext vector element s s' h = refl
shape_of-ext tuple element s s' h = ap tuple_shape (h refl)

module _ (type : TypeArena) (good : (j : ℕ) → IsGood type j) where
  pub shape_down-deep : (d d' i : ℕ) → i < d → i < d' → shape_down type d i ≡ shape_down type d' i
  unfolding shape_down
  shape_down-deep zero d' i h h' = absurd (omega arith)
  shape_down-deep (suc d) zero i h h' = absurd (omega arith)
  shape_down-deep (suc d) (suc d') i h h' =
      shape_of-ext (node_at type i).kind (node_at type i).element _ _ (λ is_tuple.
        shapes_at-children type (λ j. shape_down type d j) (λ j. shape_down type d' j)
          (node_at type i).first_child (node_at type i).child_count
          (λ k below.
            let before = good i is_tuple k below in
            shape_down-deep d d' (child type ((node_at type i).first_child + k)) (omega arith)
              (omega arith)))

  pub shape_at-node :
      (i : ℕ)
      → shape_at type i
        ≡ shape_of
            (node_at type i).kind
            (node_at type i).element
            (shapes_at (shape_at type) (children_of type i))
  unfolding shape_at shape_down
  shape_at-node i = shape_of-ext (node_at type i).kind (node_at type i).element _ _ (λ is_tuple.
      shapes_at-children type (λ j. shape_down type i j) (λ j. shape_down type (suc j) j)
        (node_at type i).first_child (node_at type i).child_count
        (λ k below.
          let j = child type ((node_at type i).first_child + k) in
          shape_down-deep i (suc j) j (good i is_tuple k below) (omega arith)))
