-- ===== src/TypeArena/Ends.antt =====
-- The walk of `validate_type` of src/type.cpp ends: it visits a node once.
use bennu.Prelude.{
  ℕ, zero, suc, ◌+◌, ◌<◌, ◌≡◌, refl, Bool, true, false, List, [], ◌∷◌, Option, some, length, arith,
  Bool-cases, inl, inr, if◌then◌else◌, ◌-◌, ◌||◌, not, leb, ◌==◌, nat_eq,
}
use bennu.HostStorage.Registry.{
  HostResourceErrorReason, no_failure, size_overflow, allocation_unavailable,
}
use bennu.TypeArena.Types.{TypeArena, type_nodes, TypeValidationResult, type_resource_failure}
use bennu.Primitive.Select.{size_max}
use bennu.TypeArena.Validate.{
  HostAnswers, read, write, fill, Claims, Walk, Visited, refused_node, go_on, visit_node,
  walk_types, allocate_walk, start_walk, validate_type, no_node, has_both,
}

-- How many nodes are to be visited.
abbrev pub to_visit : List Bool → ℕ
to_visit [] = 0
to_visit (b ∷ bs) = if b then to_visit bs else suc (to_visit bs)

pub to_visit-write :
    (visited : List Bool) (i : ℕ)
    → read visited true i ≡ false
    → suc (to_visit (write visited i true)) ≡ to_visit visited
unfolding read write
to_visit-write [] i h = cc
to_visit-write (b ∷ bs) zero h = rw h refl
to_visit-write (b ∷ bs) (suc i) h = ground (arith, to_visit-write bs i h)

pub to_visit-fill : (count : ℕ) → to_visit (fill count false) ≡ count
unfolding fill
to_visit-fill zero = refl
to_visit-fill (suc count) = omega (arith, to_visit-fill count)

abbrev IsSome : Option TypeValidationResult → Type 0
IsSome o = (r : TypeValidationResult) × (o ≡ some r)

visited-IsSome :
    (v : Visited) (go : Walk → Option TypeValidationResult)
    → ((w : Walk) → IsSome (go w))
    → IsSome (elim v [ refused_node r ↦ some r | go_on w ↦ go w ])
visited-IsSome (refused_node r) go h = (r, refl)
visited-IsSome (go_on w) go h = h w

walk_types-IsSome :
    (type : TypeArena) (fuel : ℕ) (visited : List Bool) (c : Claims) (stack : List ℕ)
    → to_visit visited < fuel
    → IsSome (walk_types type fuel visited c stack)
unfolding walk_types
walk_types-IsSome type fuel visited c [] h = (_, refl)
walk_types-IsSome type zero visited c (i ∷ stack) h = absurd (omega arith)
walk_types-IsSome type (suc fuel) visited c (i ∷ stack) h =
    elim (Bool-cases (read visited true i)) [
      | inl again ↦ rw again (_, refl)
      | inr fresh ↦
          let less : to_visit (write visited i true) < fuel =
            omega (arith, to_visit-write visited i fresh) in
          rw fresh (
            visited-IsSome
              (visit_node type (read (type_nodes type) no_node i) i
                (record { checked = c; stack = stack }))
              (λ w. walk_types type fuel (write visited i true) w.checked w.stack)
              (λ w. walk_types-IsSome type fuel (write visited i true) w.checked w.stack less))
    ]

if-IsSome :
    (b : Bool) (o o' : Option TypeValidationResult)
    → IsSome o
    → IsSome o'
    → IsSome (if b then o else o')
if-IsSome true o o' h k = h
if-IsSome false o o' h k = k

allocated-IsSome :
    (reason : HostResourceErrorReason) (o : Option TypeValidationResult)
    → IsSome o
    → IsSome (elim reason [
      | no_failure ↦ o
      | size_overflow ↦ some (type_resource_failure size_overflow)
      | allocation_unavailable ↦ some (type_resource_failure allocation_unavailable)
    ])
allocated-IsSome no_failure o h = h
allocated-IsSome size_overflow o h = (_, refl)
allocated-IsSome allocation_unavailable o h = (_, refl)

-- The validation of a type ends with a verdict on every arena, whatever its nodes and edges hold and
-- whatever the host answers: fuel for each node and one more pass is enough.
pub validate_type-IsSome :
    (host : HostAnswers) (type : TypeArena)
    → (r : TypeValidationResult) × (validate_type host type ≡ some r)
unfolding validate_type start_walk
validate_type-IsSome host type =
    let nodes = length (type_nodes type) in
    let walked =
      walk_types-IsSome type (nodes + 1) (fill nodes false)
        (record {
          edge_owners = fill (length type.child_indexes) false;
          parent_counts = fill nodes 0;
        })
        (type.root_index ∷ []) (omega (arith, to_visit-fill nodes)) in
    if-IsSome (has_both type || leb nodes type.root_index) _ _ (_, refl)
      (if-IsSome (not (type.root_index == nodes - 1)) _ _ (_, refl)
        (if-IsSome (length type.child_indexes == size_max) _ _ (_, refl)
          (allocated-IsSome (allocate_walk host type) (start_walk type) walked)))
