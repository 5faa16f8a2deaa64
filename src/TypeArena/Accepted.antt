-- ===== src/TypeArena/Accepted.antt =====
-- What each visit of an accepting walk of `validate_type` of src/type.cpp guarantees.
use bennu.Prelude.{
  ℕ, zero, suc, ◌+◌, ◌<◌, ◌≡◌, ◌≢◌, ◌⊎◌, refl, ap, ◌∙◌, Bool, true, false, List, [], ◌∷◌, Option,
  some, length, get_elem?, arith, Bool-cases, inl, inr, ltb, ◌≤◌,
}
use mathlib.Core.Option.{some-injective}
use bennu.TypeArena.Types.{
  TypeArena, TypeNode, tuple, type_nodes, TypeValidationResult, invalid_type, type_resource_failure,
}
use bennu.TypeArena.Validate.{
  HostAnswers, read, write, fill, Claims, refused_claim, claim_children, Walk, Visited,
  refused_node, go_on, visit_leaf, visit_tuple, visit_node, walk_types, start_walk, validate_type,
  no_node,
}
use bennu.TypeArena.Postorder.{
  node_at, IsGood, IsInRange, Checked, visit_node-range, next_claims, write-Checked, length-write,
  visit_node-before, first_unset-none, find_orphans-none,
}

claim_children-refused :
    (type : TypeArena) (i edge count : ℕ) (c : Claims) (r : TypeValidationResult)
    → claim_children type i edge count c ≡ refused_claim r
    → r.ok ≡ false
unfolding claim_children invalid_type
claim_children-refused type i edge zero c r e = ground arith
claim_children-refused type i edge (suc count) c r e =
    ground (arith, claim_children-refused type i (edge + 1) count (next_claims type edge c) r)

visit_tuple-refused :
    (type : TypeArena) (node : TypeNode) (i : ℕ) (w : Walk) (r : TypeValidationResult)
    → visit_tuple type node i w ≡ refused_node r
    → r.ok ≡ false
unfolding visit_tuple invalid_type type_resource_failure
visit_tuple-refused type node i w r e =
    ground (arith, claim_children-refused type i node.first_child node.child_count w.checked r)

visit_node-refused :
    (type : TypeArena) (node : TypeNode) (i : ℕ) (w : Walk) (r : TypeValidationResult)
    → visit_node type node i w ≡ refused_node r
    → r.ok ≡ false
unfolding visit_node visit_leaf invalid_type
visit_node-refused type node i w r e = ground (arith, visit_tuple-refused type node i w r)

Visited-cases :
    (v : Visited)
    → ((r : TypeValidationResult) × (v ≡ refused_node r)) ⊎ ((w : Walk) × (v ≡ go_on w))
Visited-cases (refused_node r) = inl (r, refl)
Visited-cases (go_on w) = inr (w, refl)

module _ (type : TypeArena) where
  abbrev pub visited_at : ℕ → Claims → List ℕ → Visited
  visited_at i c stack = visit_node type (node_at type i) i (record { checked = c; stack = stack })

  abbrev behind : ℕ → List Bool → ℕ → Visited → Option TypeValidationResult
  behind fuel visited i (refused_node r) = some r
  behind fuel visited i (go_on w) = walk_types type fuel (write visited i true) w.checked w.stack

  walk_types-fresh :
      (fuel : ℕ) (visited : List Bool) (c : Claims) (i : ℕ) (stack : List ℕ)
      (r : TypeValidationResult)
      → r.ok ≡ true
      → walk_types type (suc fuel) visited c (i ∷ stack) ≡ some r
      → (read visited true i ≡ false) × (behind fuel visited i (visited_at i c stack) ≡ some r)
  unfolding walk_types invalid_type
  walk_types-fresh fuel visited c i stack r ok e = elim (Bool-cases (read visited true i)) [
    | inl again ↦
        let verdict = some-injective _ _ (rw again at (e)) in
        let bad = ap (λ (x : TypeValidationResult). x.ok) verdict in absurd (ground arith)
    | inr fresh ↦ (fresh, (rw fresh at (e)))
  ]

  -- An accepting walk goes on behind a node.
  pub walk_types-step :
      (fuel : ℕ) (visited : List Bool) (c : Claims) (i : ℕ) (stack : List ℕ)
      (r : TypeValidationResult)
      → r.ok ≡ true
      → walk_types type (suc fuel) visited c (i ∷ stack) ≡ some r
      → (read visited true i ≡ false)
        × (w : Walk) × (visited_at i c stack ≡ go_on w)
        × (walk_types type fuel (write visited i true) w.checked w.stack ≡ some r)
  walk_types-step fuel visited c i stack r ok e =
      let (fresh, next) = walk_types-fresh fuel visited c i stack r ok e in
      elim (Visited-cases (visited_at i c stack)) [
        | inl (r', refused) ↦
            let bad =
              visit_node-refused type (node_at type i) i (record { checked = c; stack = stack }) r'
                refused in
            let verdict = some-injective _ _ (rw refused at (next)) in absurd cc
        | inr (w, on) ↦ (fresh, w, on, (rw on at (next)))
      ]

  -- A walk accepts only what its visits accept of each node.
  walk_types-all :
      (P : ℕ → Type 0)
      → ((i : ℕ) (w w' : Walk) → visit_node type (node_at type i) i w ≡ go_on w' → P i)
      → (fuel : ℕ) (visited : List Bool) (c : Claims) (stack : List ℕ) (r : TypeValidationResult)
      → r.ok ≡ true
      → walk_types type fuel visited c stack ≡ some r
      → Checked P visited
      → (j : ℕ) → j < length visited
      → P j
  unfolding walk_types
  walk_types-all P visits fuel visited c [] r ok e good j h = good j (
      first_unset-none visited 0 j
        (find_orphans-none visited c.edge_owners
          (ap (λ (x : TypeValidationResult). x.ok) (some-injective _ _ e) ∙ ok))
        h)
  walk_types-all P visits zero visited c (i ∷ stack) r ok e good j h = cc
  walk_types-all P visits (suc fuel) visited c (i ∷ stack) r ok e good j h =
      let (fresh, w, on, rest) = walk_types-step fuel visited c i stack r ok e in
      walk_types-all P visits fuel (write visited i true) w.checked w.stack r ok rest
        (write-Checked P visited i good (visits i (record { checked = c; stack = stack }) w on)) j
        (omega (arith, length-write visited i))

pub fill-unset : (count j : ℕ) → get_elem? (fill count false) j ≢ some true
unfolding fill
fill-unset zero j e = cc
fill-unset (suc count) zero e = ground arith
fill-unset (suc count) (suc j) e = fill-unset count j e

pub length-fill : {A : Type 0} (count : ℕ) (a : A) → length (fill count a) ≡ count
unfolding fill
length-fill zero a = refl
length-fill (suc count) a = omega (arith, length-fill count a)

pub validate_type-start :
    (host : HostAnswers) (type : TypeArena) (r : TypeValidationResult)
    → validate_type host type ≡ some r
    → r.ok ≡ true
    → (type.root_index + 1 ≡ length (type_nodes type)) × (start_walk type ≡ some r)
unfolding validate_type invalid_type type_resource_failure
validate_type-start host type r e ok = ground arith

read-outside :
    {A : Type 0} (xs : List A) (outside : A) (i : ℕ) → length xs ≤ i → read xs outside i ≡ outside
unfolding read
read-outside [] outside i h = refl
read-outside (x ∷ xs) outside zero h = absurd (omega arith)
read-outside (x ∷ xs) outside (suc i) h = read-outside xs outside i (omega arith)

module _ (host : HostAnswers) (type : TypeArena) (r : TypeValidationResult)
    (e : validate_type host type ≡ some r) (ok : r.ok ≡ true) where
  validate_type-all :
      (P : ℕ → Type 0)
      → ((i : ℕ) (w w' : Walk) → visit_node type (node_at type i) i w ≡ go_on w' → P i)
      → (j : ℕ) → j < length (type_nodes type)
      → P j
  unfolding start_walk
  validate_type-all P visits j inside =
      let nodes = length (type_nodes type) in
      let (at_end, walked) = validate_type-start host type r e ok in
      walk_types-all type P visits (nodes + 1) (fill nodes false)
        (record {
          edge_owners = fill (length type.child_indexes) false;
          parent_counts = fill nodes 0;
        })
        (type.root_index ∷ []) r ok walked (λ i found. absurd (fill-unset nodes i found)) j
        (omega (arith, length-fill nodes false))

  no_tuple_outside :
      (j : ℕ) → (ltb j (length (type_nodes type))) ≡ false → (node_at type j).kind ≢ tuple
  no_tuple_outside j outside is_tuple =
      let none_there = read-outside (type_nodes type) no_node j (ground arith) in
      absurd (ground (arith, ap (λ (n : TypeNode). n.kind) none_there))

  -- No node of an accepted arena has a child behind it.
  pub validate_type-IsGood : (j : ℕ) → IsGood type j
  validate_type-IsGood j is_tuple k below = elim (Bool-cases (ltb j (length (type_nodes type)))) [
    | inl inside ↦
        validate_type-all (IsGood type)
          (λ i w w' on. visit_node-before type (node_at type i) i w on) j (ground arith) is_tuple k
          below
    | inr outside ↦ absurd (no_tuple_outside j outside is_tuple)
  ]

  pub validate_type-IsInRange : (j : ℕ) → IsInRange type j
  validate_type-IsInRange j is_tuple = elim (Bool-cases (ltb j (length (type_nodes type)))) [
    | inl inside ↦
        validate_type-all (IsInRange type)
          (λ i w w' on. visit_node-range type (node_at type i) i w on) j (ground arith) is_tuple
    | inr outside ↦ absurd (no_tuple_outside j outside is_tuple)
  ]
