-- ===== src/Primitive/Ambiguity/Search.antt =====
-- The search for an ambiguous assignment covers every list of argument types, and finds an
-- ambiguity wherever overload selection would report one.
use bennu.Prelude.{
  ℕ, suc, ◌+◌, ◌<◌, ◌≡◌, refl, ◌∙◌, true, false, List, [], ◌∷◌, length, ltb, eqb, arith, Bool-cases,
  Option-cases, inl, inr,
}
use bennu.Scalar.Types.{ScalarType, boolean}
use bennu.Primitive.Types.{ValueType, PrimitiveSignature, PrimitiveDescriptor}
use bennu.Primitive.Select.{
  size_max, conversion_cost, add_costs, Selection, offer, consider, select_from, no_selection,
}
use bennu.Primitive.Select.Loop.{add_costs-le}
use bennu.Primitive.Ambiguity.{
  TypeAssignment, assigned_type, assignment_cost, Minimum, count_cost, count_signature,
  count_signatures, assignment_is_ambiguous, has_ambiguous_assignment,
}

-- The linked list that assigns `types` to the places from `index` on.
abbrev pub extend : List ScalarType → ℕ → List TypeAssignment → List TypeAssignment
extend [] index assignment = assignment
extend (t ∷ types) index assignment =
    extend types (index + 1) (record { type = t; index = index } ∷ assignment)

has_ambiguous_assignment-suc :
    (d : PrimitiveDescriptor) (arity remaining index : ℕ) (assignment : List TypeAssignment)
    → has_ambiguous_assignment d arity (suc remaining) index assignment ≡ false
    → (t : ScalarType)
    → has_ambiguous_assignment d arity remaining
        (index + 1)
        (record { type = t; index = index } ∷ assignment)
      ≡ false
unfolding has_ambiguous_assignment
has_ambiguous_assignment-suc d arity remaining index assignment h boolean = ground arith
has_ambiguous_assignment-suc d arity remaining index assignment h t = ground arith

-- The recursion visits every list of types of the remaining length.
pub has_ambiguous_assignment-extend :
    (d : PrimitiveDescriptor) (arity : ℕ) (types : List ScalarType) (index : ℕ)
    (assignment : List TypeAssignment)
    → has_ambiguous_assignment d arity (length types) index assignment ≡ false
    → assignment_is_ambiguous d arity (extend types index assignment) ≡ false
has_ambiguous_assignment-extend d arity [] index assignment h = unfold has_ambiguous_assignment in h
has_ambiguous_assignment-extend d arity (t ∷ ts) index assignment h =
    has_ambiguous_assignment-extend d arity ts (index + 1) _
      (has_ambiguous_assignment-suc d arity (length ts) index assignment h t)

-- What is assigned to a place below those that `extend` adds stays.
assigned_type-extend_below :
    (types : List ScalarType) (index : ℕ) (assignment : List TypeAssignment) (k : ℕ)
    → k < index
    → assigned_type (extend types index assignment) k ≡ assigned_type assignment k
unfolding assigned_type
assigned_type-extend_below [] index assignment k h = refl
assigned_type-extend_below (t ∷ ts) index assignment k h =
    assigned_type-extend_below ts (index + 1) _ k (omega arith) ∙ ground arith

assigned_type-extend_here :
    (t : ScalarType) (types : List ScalarType) (index : ℕ) (assignment : List TypeAssignment)
    → assigned_type (extend (t ∷ types) index assignment) index ≡ t
unfolding assigned_type
assigned_type-extend_here t ts index assignment =
    assigned_type-extend_below ts (index + 1) _ index (omega arith) ∙ ground arith

-- Reading the types from the linked list or from the list of arguments costs the same.
assignment_cost-extend :
    (types : List ScalarType) (ps : List ValueType) (index total : ℕ)
    (assignment : List TypeAssignment)
    → length ps ≡ length types
    → assignment_cost (extend types index assignment) index ps total ≡ add_costs types ps total
unfolding assignment_cost add_costs
assignment_cost-extend [] [] index total assignment h = refl
assignment_cost-extend [] (p ∷ ps) index total assignment h = absurd (omega arith)
assignment_cost-extend (t ∷ ts) [] index total assignment h = absurd (omega arith)
assignment_cost-extend (t ∷ ts) (p ∷ ps) index total assignment h =
    let next = record { type = t; index = index } ∷ assignment in
    let same : length ps ≡ length ts = omega arith in
    let here = assigned_type-extend_here t ts index assignment in
    elim (Option-cases (conversion_cost t p.element)) [
      | inl e ↦ ground (arith, here)
      | inr (c, e) ↦
          ground (arith, here, assignment_cost-extend ts ps (index + 1) (total + c) next same)
    ]

-- The loops of the search and of the selection keep in step.
record InStep (s : Selection) (m : Minimum) : Type 0 where
  same_cost : s.selected_cost ≡ m.minimum_cost
  same_ambiguity : s.ambiguous ≡ ltb 1 m.minimum_count
  counted : m.minimum_cost < size_max → 0 < m.minimum_count

offer-InStep :
    (n c : ℕ) (signature : PrimitiveSignature) (s : Selection) (m : Minimum)
    → c < size_max
    → InStep s m
    → InStep (offer n signature c s) (count_cost c m)
unfolding offer count_cost
offer-InStep n c signature s m short h = ground arith

module _ (types : List ScalarType) (short : length types < size_max) where
  consider-InStep :
      (n : ℕ) (signature : PrimitiveSignature) (s : Selection) (m : Minimum)
      → InStep s m
      → InStep
          (consider types n signature s)
          (count_signature (length types) (extend types 0 []) signature m)
  unfolding consider count_signature
  consider-InStep n signature s m h =
      elim (Bool-cases (eqb (length signature.parameters) (length types))) [
        | inr other ↦ rw other h
        | inl same ↦
            let cost : assignment_cost (extend types 0 []) 0 signature.parameters 0
                ≡ add_costs types signature.parameters 0 =
              assignment_cost-extend types signature.parameters 0 0 [] (ground arith) in
            elim (Option-cases (add_costs types signature.parameters 0)) [
              | inl e ↦
                  rw (same, cost, e)
                    (record {
                      same_cost = h.same_cost;
                      same_ambiguity = h.same_ambiguity;
                      counted = h.counted;
                    })
              | inr (c, e) ↦
                  let le = add_costs-le types signature.parameters 0 c e in
                  rw (same, cost, e)
                    (offer-InStep n c signature (record s { arity_exists = true }) m (omega arith)
                      (record {
                        same_cost = h.same_cost;
                        same_ambiguity = h.same_ambiguity;
                        counted = h.counted;
                      }))
            ]
      ]

  select_from-InStep :
      (rest : List PrimitiveSignature) (n : ℕ) (s : Selection) (m : Minimum)
      → InStep s m
      → InStep
          (select_from types n rest s)
          (count_signatures (length types) (extend types 0 []) rest m)
  unfolding select_from count_signatures
  select_from-InStep [] n s m h = h
  select_from-InStep (x ∷ rest) n s m h =
      select_from-InStep rest (n + 1) _ _ (consider-InStep n x s m h)

-- Where the search finds nothing at an arity, selection over that many arguments meets no tie.
pub has_ambiguous_assignment-select :
    (d : PrimitiveDescriptor) (types : List ScalarType)
    → length types < size_max
    → has_ambiguous_assignment d (length types) (length types) 0 [] ≡ false
    → (select_from types 0 d.signatures no_selection).ambiguous ≡ false
unfolding assignment_is_ambiguous
has_ambiguous_assignment-select d types short h =
    let step =
      select_from-InStep types short d.signatures 0 no_selection
        (record { minimum_cost = size_max; minimum_count = 0 })
        (record { same_cost = refl; same_ambiguity = refl; counted = λ p. absurd (omega arith) }) in
    step.same_ambiguity ∙ has_ambiguous_assignment-extend d (length types) types 0 [] h
