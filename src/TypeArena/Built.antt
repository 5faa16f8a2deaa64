-- ===== src/TypeArena/Built.antt =====
-- The tree of the tuple that `make_tuple_type` of src/type.cpp builds from gathered elements.
use bennu.Prelude.{
  ℕ, suc, ◌+◌, ◌-◌, ◌≤◌, ◌≡◌, refl, ap, sym, ◌∙◌, true, List, [], ◌∷◌, ◌++◌, none, some, length,
  length-append, All, arith,
}
use mathlib.Core.List.{append-nil, append_assoc}
use bennu.Scalar.Types.{boolean}
use bennu.TypeArena.Types.{TypeArena, TypeNode, tuple, type_nodes, TypeValidationResult}
use bennu.TypeArena.Validate.{HostAnswers, read, no_node, validate_type}
use bennu.TypeArena.Postorder.{child, node_at}
use bennu.TypeArena.Accepted.{validate_type-IsGood, validate_type-IsInRange, validate_type-start}
use bennu.TypeArena.Shape.{
  Shapes, tuple_shape, nil, cons, children, shapes_at, shape_of, shape_down, shape_at,
  shape_down-deep, type_shape,
}
use bennu.TypeArena.Arrays.{Extends, Extends-trans, push_all-fits, read-skip}
use bennu.TypeArena.Construct.{ElementCounts, Gathered, close_tuple}
use bennu.TypeArena.Moved.{moved-shape_down}
use bennu.TypeArena.Gathered.{add_element, gathered, node_sum, gathered-Lengths, gathered-Extends}

-- The validation accepts a type, with some answers of the host.
abbrev pub IsAccepted : TypeArena → Type 0
IsAccepted type =
    (host : HostAnswers) × (r : TypeValidationResult) × (validate_type host type ≡ some r)
    × (r.ok ≡ true)

-- The indexes of the elements' roots, from an index on.
unfoldable block_roots : ℕ → List TypeArena → List ℕ
block_roots offset [] = []
block_roots offset (element ∷ elements) =
    (element.root_index + offset) ∷ block_roots (offset + length (type_nodes element)) elements

unfoldable pub type_shapes : List TypeArena → Shapes
type_shapes [] = nil
type_shapes (element ∷ elements) = cons (type_shape element) (type_shapes elements)

add_element-nodes :
    (element : TypeArena) (g : Gathered)
    → length (add_element element g).nodes ≡ length g.nodes + length (type_nodes element)
unfolding node_sum gathered
add_element-nodes element g = omega (arith, (gathered-Lengths (element ∷ []) g).0)

gathered-roots :
    (elements : List TypeArena) (g : Gathered)
    → (gathered elements g).roots ≡ g.roots ++ block_roots (length g.nodes) elements
unfolding gathered add_element block_roots
gathered-roots [] g = sym (append-nil g.roots)
gathered-roots (element ∷ elements) g =
    let next = add_element element g in
    let root = element.root_index + length g.nodes in
    gathered-roots elements next
    ∙ ap (λ n. next.roots ++ block_roots n elements) (add_element-nodes element g)
    ∙ append_assoc g.roots (root ∷ [])
        (block_roots (length g.nodes + length (type_nodes element)) elements)

element-shape :
    (type element : TypeArena) (g : Gathered) (d : ℕ)
    → IsAccepted element
    → Extends (add_element element g).nodes (type_nodes type)
    → Extends (add_element element g).child_indexes type.child_indexes
    → length (type_nodes element) ≤ d
    → shape_down type d (element.root_index + length g.nodes) ≡ type_shape element
unfolding add_element type_shape shape_at
element-shape type element g d (host, r, e, ok) nodes edges deep =
    let root = element.root_index in
    let at_end = (validate_type-start host element r e ok).0 in
    let good = validate_type-IsGood host element r e ok in
    moved-shape_down type element g.nodes g.child_indexes nodes edges good
      (validate_type-IsInRange host element r e ok) d root (omega (arith, at_end))
    ∙ shape_down-deep element good d (suc root) root (omega (arith, at_end)) (omega arith)

block_roots-shapes :
    (type : TypeArena) (elements : List TypeArena) (g : Gathered) (d : ℕ)
    → All IsAccepted elements
    → Extends (gathered elements g).nodes (type_nodes type)
    → Extends (gathered elements g).child_indexes type.child_indexes
    → node_sum elements ≤ d
    → shapes_at (λ j. shape_down type d j) (block_roots (length g.nodes) elements)
      ≡ type_shapes elements
unfolding block_roots type_shapes shapes_at gathered node_sum
block_roots-shapes type [] g d accepted nodes edges deep = refl
block_roots-shapes type (element ∷ elements) g d (accepted, others) nodes edges deep =
    let next = add_element element g in
    let (more, more_edges) = gathered-Extends elements next in
    let first =
      element-shape type element g d accepted
        (Extends-trans next.nodes (gathered elements next).nodes (type_nodes type) more nodes)
        (Extends-trans next.child_indexes (gathered elements next).child_indexes type.child_indexes
          more_edges edges)
        (omega arith) in
    let rest = block_roots-shapes type elements next d others nodes edges (omega arith) in
    let offset = add_element-nodes element g in rw (first, ← offset, rest) refl

-- The arena of the tuple.
unfoldable pub closed : Gathered → TypeArena
closed g = record {
  nodes =
      g.nodes
      ++ (record {
        kind = tuple;
        element = boolean;
        first_child = length g.child_indexes;
        child_count = length g.roots;
      }
          ∷ []);
  child_indexes = g.child_indexes ++ g.roots;
  root_index = length g.nodes;
  inline_leaf = none;
}

pub close_tuple-fits :
    (counts : ElementCounts) (g : Gathered)
    → length g.nodes + 1 ≤ counts.nodes
    → length g.child_indexes + length g.roots ≤ counts.edges
    → close_tuple counts g ≡ some (closed g)
unfolding close_tuple closed
close_tuple-fits counts g n e =
    let node : TypeNode = record {
      kind = tuple;
      element = boolean;
      first_child = length g.child_indexes;
      child_count = length g.roots;
    } in
    let root : length (g.nodes ++ (node ∷ [])) - 1 ≡ length g.nodes =
      omega (arith, length-append g.nodes (node ∷ [])) in
    rw
      (
        push_all-fits counts.edges g.child_indexes g.roots e,
        push_all-fits counts.nodes g.nodes (node ∷ []) n,
        root,
      )
      refl

children-behind :
    (type : TypeArena) (edges is : List ℕ)
    → type.child_indexes ≡ edges ++ is
    → children type (length edges) (length is) ≡ is
unfolding children read
children-behind type edges [] e = refl
children-behind type edges (i ∷ is) e =
    let here : child type (length edges) ≡ i =
      ap (λ c. read c 0 (length edges)) e
      ∙ ap (λ k. read (edges ++ (i ∷ is)) 0 k) (omega arith)
      ∙ read-skip 0 edges (i ∷ is) 0 in
    let rest =
      children-behind type (edges ++ (i ∷ [])) is (e ∙ sym (append_assoc edges (i ∷ []) is)) in
    let next = length-append edges (i ∷ []) in
    rw here (ap (λ c. i ∷ c) (ap (λ k. children type k (length is)) (sym next) ∙ rest))

closed_root :
    (g : Gathered)
    → node_at (closed g) (length g.nodes) ≡ record {
      kind = tuple;
      element = boolean;
      first_child = length g.child_indexes;
      child_count = length g.roots;
    }
unfolding closed read type_nodes
closed_root g = ap (λ k. node_at (closed g) k) (omega arith) ∙ read-skip no_node g.nodes _ 0

closed-Extends :
    (g : Gathered)
    → Extends g.nodes (type_nodes (closed g)) × Extends g.child_indexes (closed g).child_indexes
unfolding closed type_nodes
closed-Extends g = ((_, refl), (_, refl))

closed-roots :
    (g : Gathered)
    → type_shape (closed g)
      ≡ tuple_shape (shapes_at (λ j. shape_down (closed g) (length g.nodes) j) g.roots)
unfolding type_shape shape_at shape_down shape_of closed
closed-roots g =
    ap
      (λ (n : TypeNode). shape_of n.kind n.element (
        shapes_at (λ j. shape_down (closed g) (length g.nodes) j)
          (children (closed g) n.first_child n.child_count)))
      (closed_root g)
    ∙ ap (λ is. tuple_shape (shapes_at (λ j. shape_down (closed g) (length g.nodes) j) is))
        (children-behind (closed g) g.child_indexes g.roots refl)

abbrev pub nothing_gathered : Gathered
nothing_gathered = record { nodes = []; child_indexes = []; roots = [] }

-- The tuple that is built stands for the tuple of the trees that its elements stand for.
pub closed-shape :
    (elements : List TypeArena)
    → All IsAccepted elements
    → type_shape (closed (gathered elements nothing_gathered)) ≡ tuple_shape (type_shapes elements)
closed-shape elements accepted =
    let g = gathered elements nothing_gathered in
    let shape = λ (j : ℕ). shape_down (closed g) (length g.nodes) j in
    closed-roots g
    ∙ ap (λ is. tuple_shape (shapes_at shape is)) (gathered-roots elements nothing_gathered)
    ∙ ap tuple_shape (
        block_roots-shapes (closed g) elements nothing_gathered (length g.nodes) accepted
          (closed-Extends g).0 (closed-Extends g).1
          (omega (arith, (gathered-Lengths elements nothing_gathered).0)))
