-- ===== src/TypeArena/Postorder.antt =====
-- The order of nodes in `validate_type` of src/type.cpp: a visited tuple stands behind its children.
use bennu.Prelude.{
  ◌%◌, ◌^◌, ℕ, zero, suc, ◌+◌, ◌<◌, ◌≤◌, ◌≡◌, refl, Bool, true, List, [], ◌∷◌, none, some, length,
  get_elem?, arith, inl, inr, ◌⊎◌,
}
use bennu.TypeArena.Types.{TypeArena, TypeNode, tuple, type_nodes, invalid_type}
use bennu.TypeArena.Validate.{
  read, write, Claims, claims, claim_children, Walk, go_on, visit_tuple, visit_node, first_unset,
  find_orphans, no_node,
}

abbrev pub child : TypeArena → ℕ → ℕ
child type edge = read type.child_indexes 0 edge

abbrev pub node_at : TypeArena → ℕ → TypeNode
node_at type i = read (type_nodes type) no_node i

abbrev pub next_claims : TypeArena → ℕ → Claims → Claims
next_claims type edge c = record {
  edge_owners = write c.edge_owners edge true;
  parent_counts =
      write c.parent_counts (child type edge)
        ((read c.parent_counts 0 (child type edge) + 1) % 2 ^ 8);
}

pub claim_children-next :
    (type : TypeArena) (i edge count : ℕ) (c : Claims) {c' : Claims}
    → claim_children type i edge (suc count) c ≡ claims c'
    → claim_children type i (edge + 1) count (next_claims type edge c) ≡ claims c'
unfolding claim_children
claim_children-next type i edge count c e = ground arith

claim_children-before :
    (type : TypeArena) (i edge count : ℕ) (c : Claims) {c' : Claims}
    → claim_children type i edge count c ≡ claims c'
    → (k : ℕ) → k < count
    → child type (edge + k) < i
unfolding claim_children
claim_children-before type i edge zero c e k h = absurd (omega arith)
claim_children-before type i edge (suc count) c e zero h = ground arith
claim_children-before type i edge (suc count) c e (suc k) h =
    let shifted =
      claim_children-before type i (edge + 1) count (next_claims type edge c)
        (claim_children-next type i edge count c e) k (omega arith) in
    let same : edge + 1 + k ≡ edge + suc k = omega arith in rw same at (shifted)

-- The children of a tuple stand before it.
abbrev pub IsGood : TypeArena → ℕ → Type 0
IsGood type i =
    let node = read (type_nodes type) no_node i in
    node.kind ≡ tuple → (k : ℕ) → k < node.child_count → child type (node.first_child + k) < i

-- The edges of a tuple are edges of the arena.
abbrev pub IsInRange : TypeArena → ℕ → Type 0
IsInRange type i =
    let node = node_at type i in
    node.kind ≡ tuple → node.first_child + node.child_count ≤ length type.child_indexes

visit_tuple-range :
    (type : TypeArena) (node : TypeNode) (i : ℕ) (w : Walk) {w' : Walk}
    → visit_tuple type node i w ≡ go_on w'
    → node.first_child + node.child_count ≤ length type.child_indexes
unfolding visit_tuple
visit_tuple-range type node i w e = ground arith

pub visit_node-range :
    (type : TypeArena) (node : TypeNode) (i : ℕ) (w : Walk) {w' : Walk}
    → visit_node type node i w ≡ go_on w'
    → node.kind ≡ tuple
    → node.first_child + node.child_count ≤ length type.child_indexes
unfolding visit_node
visit_node-range type node i w {w'} e is_tuple =
    let visited : visit_tuple type node i w ≡ go_on w' = (rw is_tuple at (e)) in
    visit_tuple-range type node i w visited

visit_tuple-before :
    (type : TypeArena) (node : TypeNode) (i : ℕ) (w : Walk) {w' : Walk}
    → visit_tuple type node i w ≡ go_on w'
    → (c : Claims) × (claim_children type i node.first_child node.child_count w.checked ≡ claims c)
unfolding visit_tuple
visit_tuple-before type node i w e = ground arith

pub visit_node-before :
    (type : TypeArena) (node : TypeNode) (i : ℕ) (w : Walk) {w' : Walk}
    → visit_node type node i w ≡ go_on w'
    → node.kind ≡ tuple
    → (k : ℕ) → k < node.child_count
    → child type (node.first_child + k) < i
unfolding visit_node
visit_node-before type node i w {w'} e is_tuple k h =
    let visited : visit_tuple type node i w ≡ go_on w' = (rw is_tuple at (e)) in
    let (c, claimed) = visit_tuple-before type node i w visited in
    claim_children-before type i node.first_child node.child_count w.checked claimed k h

-- The visited nodes are as they should be.
abbrev pub Checked : (ℕ → Type 0) → List Bool → Type 0
Checked P visited = (j : ℕ) → get_elem? visited j ≡ some true → P j

write-get_elem? :
    (visited : List Bool) (i j : ℕ)
    → get_elem? (write visited i true) j ≡ some true
    → (i ≡ j) ⊎ (get_elem? visited j ≡ some true)
unfolding write
write-get_elem? [] i j e = inr e
write-get_elem? (b ∷ bs) zero zero e = inl refl
write-get_elem? (b ∷ bs) zero (suc j) e = inr e
write-get_elem? (b ∷ bs) (suc i) zero e = inr e
write-get_elem? (b ∷ bs) (suc i) (suc j) e = elim (write-get_elem? bs i j e) [
  | inl same ↦ inl (omega (arith, same))
  | inr before ↦ inr before
]

pub write-Checked :
    (P : ℕ → Type 0) (visited : List Bool) (i : ℕ)
    → Checked P visited
    → P i
    → Checked P (write visited i true)
write-Checked P visited i h good j e = elim (write-get_elem? visited i j e) [
  | inl same ↦ (rw same at (good))
  | inr before ↦ h j before
]

pub length-write : (visited : List Bool) (i : ℕ) → length (write visited i true) ≡ length visited
unfolding write
length-write [] i = refl
length-write (b ∷ bs) zero = refl
length-write (b ∷ bs) (suc i) = omega (arith, length-write bs i)

pub first_unset-none :
    (visited : List Bool) (index j : ℕ)
    → first_unset visited index ≡ none
    → j < length visited
    → get_elem? visited j ≡ some true
unfolding first_unset
first_unset-none [] index j e h = absurd (omega arith)
first_unset-none (b ∷ bs) index zero e h = ground arith
first_unset-none (b ∷ bs) index (suc j) e h = ground (arith, first_unset-none bs (index + 1) j)

pub find_orphans-none :
    (visited edge_owners : List Bool)
    → (find_orphans visited edge_owners).ok ≡ true
    → first_unset visited 0 ≡ none
unfolding find_orphans invalid_type
find_orphans-none visited edge_owners e = ground arith
