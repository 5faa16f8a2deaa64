-- ===== src/TypeArena/Gathered.antt =====
-- The loop of `make_tuple_type` of src/type.cpp that gathers the elements, where there is room.
use bennu.Prelude.{
  ℕ, ◌+◌, ◌≤◌, ◌≡◌, refl, ap, sym, ◌∙◌, List, [], ◌∷◌, ◌++◌, some, length, length-append, arith,
  map,
}
use mathlib.Core.List.{append-nil}
use bennu.TypeArena.Types.{TypeArena, type_nodes}
use bennu.TypeArena.Arrays.{Extends, Extends-append, Extends-trans, push_all-fits, length-map}
use bennu.TypeArena.Construct.{ElementCounts, Gathered, moved_node, gather_element, gather_elements}

-- The arrays with one more element, and with all.
unfoldable pub add_element : TypeArena → Gathered → Gathered
add_element element g = record {
  nodes = g.nodes ++ map (moved_node (length g.child_indexes)) (type_nodes element);
  child_indexes =
      g.child_indexes ++ map (λ child_index. child_index + length g.nodes) element.child_indexes;
  roots = g.roots ++ ((element.root_index + length g.nodes) ∷ []);
}

unfoldable pub gathered : List TypeArena → Gathered → Gathered
unfolding add_element
gathered [] g = g
gathered (element ∷ elements) g = gathered elements (add_element element g)

unfoldable pub node_sum : List TypeArena → ℕ
node_sum [] = 0
node_sum (element ∷ elements) = length (type_nodes element) + node_sum elements

unfoldable pub edge_sum : List TypeArena → ℕ
edge_sum [] = 0
edge_sum (element ∷ elements) = length element.child_indexes + edge_sum elements

-- The lengths of the arrays.
abbrev pub Lengths : Gathered → ℕ → ℕ → ℕ → Type 0
Lengths g n e r = (length g.nodes ≡ n) × (length g.child_indexes ≡ e) × (length g.roots ≡ r)

add_element-Lengths :
    (element : TypeArena) (g : Gathered)
    → Lengths
        (add_element element g)
        (length g.nodes + length (type_nodes element))
        (length g.child_indexes + length element.child_indexes)
        (length g.roots + 1)
unfolding add_element
add_element-Lengths element g = (
  length-append g.nodes (map (moved_node (length g.child_indexes)) (type_nodes element))
      ∙ ap (λ n. length g.nodes + n)
          (length-map (moved_node (length g.child_indexes)) (type_nodes element)),
  length-append g.child_indexes
        (map (λ child_index. child_index + length g.nodes) element.child_indexes)
      ∙ ap (λ n. length g.child_indexes + n)
          (length-map (λ child_index. child_index + length g.nodes) element.child_indexes),
  length-append g.roots ((element.root_index + length g.nodes) ∷ []),
)

pub gathered-Lengths :
    (elements : List TypeArena) (g : Gathered)
    → Lengths
        (gathered elements g)
        (length g.nodes + node_sum elements)
        (length g.child_indexes + edge_sum elements)
        (length g.roots + length elements)
unfolding gathered node_sum edge_sum
gathered-Lengths [] g = (omega arith, omega arith, omega arith)
gathered-Lengths (element ∷ elements) g =
    let (n, e, r) = add_element-Lengths element g in
    let (ns, es, rs) = gathered-Lengths elements (add_element element g) in
    (omega (arith, n, ns), omega (arith, e, es), omega (arith, r, rs))

-- There is room for the elements.
abbrev pub Holds : ElementCounts → ℕ → Gathered → List TypeArena → Type 0
Holds counts roots g elements =
    (length g.nodes + node_sum elements ≤ counts.nodes)
    × (length g.child_indexes + edge_sum elements ≤ counts.edges)
    × (length g.roots + length elements ≤ roots)

gather_element-fits :
    (counts : ElementCounts) (roots : ℕ) (element : TypeArena) (g : Gathered)
    → Holds counts roots g (element ∷ [])
    → gather_element counts roots element g ≡ some (add_element element g)
unfolding gather_element add_element node_sum edge_sum
gather_element-fits counts roots element g (n, e, r) =
    let nodes = map (moved_node (length g.child_indexes)) (type_nodes element) in
    let edges = map (λ child_index. child_index + length g.nodes) element.child_indexes in
    let root = element.root_index + length g.nodes in
    rw
      (
        push_all-fits counts.nodes g.nodes nodes (
            omega
              (arith, n, length-map (moved_node (length g.child_indexes)) (type_nodes element))),
        push_all-fits counts.edges g.child_indexes edges (
            omega (
              arith,
              e,
              length-map (λ child_index. child_index + length g.nodes) element.child_indexes,
            )),
        push_all-fits roots g.roots (root ∷ []) r,
      )
      refl

pub gather_elements-fits :
    (counts : ElementCounts) (roots : ℕ) (elements : List TypeArena) (g : Gathered)
    → Holds counts roots g elements
    → gather_elements counts roots elements g ≡ some (gathered elements g)
unfolding gather_elements gathered node_sum edge_sum
gather_elements-fits counts roots [] g h = refl
gather_elements-fits counts roots (element ∷ elements) g (n, e, r) =
    let (n', e', r') = add_element-Lengths element g in
    rw (gather_element-fits counts roots element g (omega arith, omega arith, omega arith)) (
      gather_elements-fits counts roots elements (add_element element g)
        (omega (arith, n, n'), omega (arith, e, e'), omega (arith, r, r')))

pub gathered-Extends :
    (elements : List TypeArena) (g : Gathered)
    → Extends g.nodes (gathered elements g).nodes
      × Extends g.child_indexes (gathered elements g).child_indexes
unfolding gathered add_element
gathered-Extends [] g = (([], sym (append-nil g.nodes)), ([], sym (append-nil g.child_indexes)))
gathered-Extends (element ∷ elements) g =
    let next = add_element element g in
    let (nodes, edges) = gathered-Extends elements next in
    (
      Extends-trans g.nodes next.nodes (gathered elements next).nodes (Extends-append g.nodes _)
          nodes,
      Extends-trans g.child_indexes next.child_indexes (gathered elements next).child_indexes
          (Extends-append g.child_indexes _) edges,
    )
