-- ===== src/TypeArena/Sizes.antt =====
-- The sizes of an arena that `validate_type` of src/type.cpp accepts.
use bennu.Prelude.{
  ℕ, zero, suc, ◌+◌, ◌<◌, ◌≤◌, ◌≡◌, refl, ap, Bool, true, false, List, [], ◌∷◌, ◌++◌, none, some,
  length, length-append, ◌⊎◌, inl, inr, arith, sym, ◌∙◌,
}
use mathlib.Core.Option.{some-injective}
use bennu.Scalar.Types.{ScalarType}
use bennu.TypeArena.Types.{
  TypeArena, TypeNode, TypeKind, scalar, vector, tuple, type_nodes, TypeValidationResult,
  invalid_type,
}
use bennu.TypeArena.Validate.{
  HostAnswers, read, write, fill, Claims, claims, claim_children, push_children, Walk, go_on,
  visit_leaf, visit_tuple, visit_node, walk_types, first_unset, find_orphans, validate_type,
  start_walk,
}
use bennu.TypeArena.Postorder.{child, node_at, IsGood, next_claims, claim_children-next}
use bennu.TypeArena.Ends.{to_visit, to_visit-write, to_visit-fill}
use bennu.TypeArena.Accepted.{walk_types-step, validate_type-IsGood, validate_type-start}
use bennu.TypeArena.Shape.{
  Shape, scalar_shape, vector_shape, tuple_shape, size, size_all, children, children_of, shapes_at,
  shape_of, shape_at, shape_at-node, type_shape,
}

-- The sizes of the shapes of some nodes.
unfoldable pub total : (ℕ → Shape) → List ℕ → ℕ
total f [] = 0
total f (i ∷ is) = size (f i) + total f is

pub total-++ : (f : ℕ → Shape) (is js : List ℕ) → total f (is ++ js) ≡ total f is + total f js
unfolding total
total-++ f [] js = omega arith
total-++ f (i ∷ is) js = omega (arith, total-++ f is js)

pub size_all-shapes_at : (f : ℕ → Shape) (is : List ℕ) → size_all (shapes_at f is) ≡ total f is
unfolding total size shapes_at
size_all-shapes_at f [] = refl
size_all-shapes_at f (i ∷ is) = omega (arith, size_all-shapes_at f is)

pub size_positive : (s : Shape) → 0 < size s
unfolding size
size_positive (scalar_shape element) = omega arith
size_positive (vector_shape element) = omega arith
size_positive (tuple_shape elements) = omega arith

pub length-total : (f : ℕ → Shape) (is : List ℕ) → length is ≤ total f is
unfolding total
length-total f [] = omega arith
length-total f (i ∷ is) = omega (arith, length-total f is, size_positive (f i))

pub children-last :
    (type : TypeArena) (edge count : ℕ) (stack : List ℕ)
    → children type edge (suc count) ++ stack
      ≡ children type edge count ++ (child type (edge + count) ∷ stack)
unfolding children
children-last type edge zero stack = ap (λ e. child type e ∷ stack) (omega arith)
children-last type edge (suc count) stack =
    let rest = children-last type (edge + 1) count stack in
    let same : edge + 1 + count ≡ edge + suc count = omega arith in
    ap (λ is. child type edge ∷ is) (rw same at (rest))

push_children-next :
    (type : TypeArena) (edge count : ℕ) (stack : List ℕ) {stack' : List ℕ}
    → push_children type edge (suc count) stack ≡ some stack'
    → push_children type edge count (child type (edge + count) ∷ stack) ≡ some stack'
unfolding push_children
push_children-next type edge count stack e = ground arith

push_children-children :
    (type : TypeArena) (edge count : ℕ) (stack : List ℕ) {stack' : List ℕ}
    → push_children type edge count stack ≡ some stack'
    → stack' ≡ children type edge count ++ stack
unfolding push_children children
push_children-children type edge zero stack e = sym (some-injective _ _ e)
push_children-children type edge (suc count) stack e =
    push_children-children type edge count (child type (edge + count) ∷ stack)
      (push_children-next type edge count stack e)
    ∙ sym (children-last type edge count stack)

pub claim_children-fresh :
    (type : TypeArena) (i edge count : ℕ) (c : Claims) {c' : Claims}
    → claim_children type i edge (suc count) c ≡ claims c'
    → read c.edge_owners true edge ≡ false
unfolding claim_children
claim_children-fresh type i edge count c e = ground arith

claim_children-owners :
    (type : TypeArena) (i edge count : ℕ) (c : Claims) {c' : Claims}
    → claim_children type i edge count c ≡ claims c'
    → to_visit c'.edge_owners + count ≡ to_visit c.edge_owners
unfolding claim_children
claim_children-owners type i edge zero c e = ground arith
claim_children-owners type i edge (suc count) c e = omega (
  arith,
  claim_children-owners type i (edge + 1) count (next_claims type edge c)
      (claim_children-next type i edge count c e),
  to_visit-write c.edge_owners edge (claim_children-fresh type i edge count c e),
)

pub length-children :
    (type : TypeArena) (edge count : ℕ) → length (children type edge count) ≡ count
unfolding children
length-children type edge zero = refl
length-children type edge (suc count) = omega (arith, length-children type (edge + 1) count)

-- The nodes that a walk goes to behind a node.
unfoldable pub offspring : TypeKind → List ℕ → List ℕ
offspring scalar is = []
offspring vector is = []
offspring tuple is = is

size-shape_of :
    (kind : TypeKind) (element : ScalarType) (f : ℕ → Shape) (is : List ℕ)
    → size (shape_of kind element (shapes_at f is)) ≡ suc (total f (offspring kind is))
unfolding size shape_of offspring total
size-shape_of scalar element f is = refl
size-shape_of vector element f is = refl
size-shape_of tuple element f is = ap suc (size_all-shapes_at f is)

pub visit_tuple-parts :
    (type : TypeArena) (node : TypeNode) (i : ℕ) (w : Walk) {w' : Walk}
    → visit_tuple type node i w ≡ go_on w'
    → (claim_children type i node.first_child node.child_count w.checked ≡ claims w'.checked)
      × (push_children type node.first_child node.child_count w.stack ≡ some w'.stack)
unfolding visit_tuple
visit_tuple-parts type node i w e = ground arith

pub visit_leaf-same :
    (node : TypeNode) (i : ℕ) (w : Walk) {w' : Walk} → visit_leaf node i w ≡ go_on w' → w ≡ w'
unfolding visit_leaf
visit_leaf-same node i w e = ground arith

-- What a step of the walk does to the stack and to the edges that no tuple has yet.
abbrev pub Steps : List ℕ → Walk → Walk → Type 0
Steps is w w' =
    (w'.stack ≡ is ++ w.stack)
    × (to_visit w'.checked.edge_owners + length is ≡ to_visit w.checked.edge_owners)

pub TypeKind-cases : (k : TypeKind) → ((k ≡ scalar) ⊎ (k ≡ vector)) ⊎ (k ≡ tuple)
TypeKind-cases scalar = inl (inl refl)
TypeKind-cases vector = inl (inr refl)
TypeKind-cases tuple = inr refl

pub visit_node-Steps :
    (type : TypeArena) (node : TypeNode) (i : ℕ) (w : Walk) {w' : Walk}
    → visit_node type node i w ≡ go_on w'
    → Steps (offspring node.kind (children type node.first_child node.child_count)) w w'
unfolding visit_node offspring
visit_node-Steps type node i w {w'} e = elim (TypeKind-cases node.kind) [
  | inl (inl leaf) ↦
      let on : visit_leaf node i w ≡ go_on w' = (rw leaf at (e)) in
      rw (leaf, sym (visit_leaf-same node i w on)) (refl, omega arith)
  | inl (inr leaf) ↦
      let on : visit_leaf node i w ≡ go_on w' = (rw leaf at (e)) in
      rw (leaf, sym (visit_leaf-same node i w on)) (refl, omega arith)
  | inr is_tuple ↦
      let on : visit_tuple type node i w ≡ go_on w' = (rw is_tuple at (e)) in
      let (claimed, pushed) = visit_tuple-parts type node i w on in
      rw is_tuple (
        push_children-children type node.first_child node.child_count w.stack pushed,
        omega (
          arith,
          length-children type node.first_child node.child_count,
          claim_children-owners type i node.first_child node.child_count w.checked claimed,
        ),
      )
]

pub first_unset-all :
    (visited : List Bool) (index : ℕ) → first_unset visited index ≡ none → to_visit visited ≡ 0
unfolding first_unset
first_unset-all [] index e = refl
first_unset-all (b ∷ bs) index e = ground (arith, first_unset-all bs (index + 1))

pub find_orphans-all :
    (visited owners : List Bool)
    → (find_orphans visited owners).ok ≡ true
    → (to_visit visited ≡ 0) × (to_visit owners ≡ 0)
unfolding find_orphans invalid_type
find_orphans-all visited owners e =
    ground (arith, first_unset-all visited 0, first_unset-all owners 0)

module _ (type : TypeArena) (good : (j : ℕ) → IsGood type j) where
  abbrev pub node_children : ℕ → List ℕ
  node_children i = offspring (node_at type i).kind (children_of type i)

  pub size-shape_at :
      (i : ℕ) → size (shape_at type i) ≡ suc (total (shape_at type) (node_children i))
  size-shape_at i =
      ap size (shape_at-node type good i)
      ∙ size-shape_of (node_at type i).kind (node_at type i).element (shape_at type)
          (children_of type i)

  pub size-tuple :
      (i : ℕ)
      → (node_at type i).kind ≡ tuple
      → size (shape_at type i) ≡ suc (total (shape_at type) (children_of type i))
  unfolding offspring
  size-tuple i h = size-shape_at i ∙ rw h refl

  walk_types-total :
      (fuel : ℕ) (visited : List Bool) (c : Claims) (stack : List ℕ) (r : TypeValidationResult)
      → r.ok ≡ true
      → walk_types type fuel visited c stack ≡ some r
      → (to_visit visited ≡ total (shape_at type) stack)
        × (to_visit c.edge_owners + length stack ≡ total (shape_at type) stack)
  unfolding walk_types total
  walk_types-total fuel visited c [] r ok e =
      let (nodes, edges) =
        find_orphans-all visited c.edge_owners
          (ap (λ (x : TypeValidationResult). x.ok) (some-injective _ _ e) ∙ ok) in
      (nodes, omega arith)
  walk_types-total zero visited c (i ∷ stack) r ok e = absurd cc
  walk_types-total (suc fuel) visited c (i ∷ stack) r ok e =
      let (fresh, w, on, rest) = walk_types-step type fuel visited c i stack r ok e in
      let (below, owners) =
        visit_node-Steps type (node_at type i) i (record { checked = c; stack = stack }) on in
      let (nodes, edges) =
        walk_types-total fuel (write visited i true) w.checked w.stack r ok rest in
      let is = node_children i in
      let sums = ap (total (shape_at type)) below ∙ total-++ (shape_at type) is stack in
      let lengths = ap length below ∙ length-append is stack in
      (
        omega (arith, nodes, sums, size-shape_at i, to_visit-write visited i fresh),
        omega (arith, edges, sums, owners, lengths, size-shape_at i),
      )

-- An arena that the validation accepts stands for a tree with as many nodes as the arena, one more
-- than its edges.
pub validate_type-size :
    (host : HostAnswers) (type : TypeArena) (r : TypeValidationResult)
    → validate_type host type ≡ some r
    → r.ok ≡ true
    → (size (type_shape type) ≡ length (type_nodes type))
      × (length type.child_indexes + 1 ≡ length (type_nodes type))
unfolding start_walk type_shape total
validate_type-size host type r e ok =
    let nodes = length (type_nodes type) in
    let (at_end, walked) = validate_type-start host type r e ok in
    let (visited, edges) =
      walk_types-total type (validate_type-IsGood host type r e ok) (nodes + 1) (fill nodes false)
        (record {
          edge_owners = fill (length type.child_indexes) false;
          parent_counts = fill nodes 0;
        })
        (type.root_index ∷ []) r ok walked in
    (
      omega (arith, to_visit-fill nodes, visited),
      omega (arith, to_visit-fill nodes, to_visit-fill (length type.child_indexes), visited, edges),
    )
