-- ===== src/TypeArena/Constructed.antt =====
-- The verdicts of `clone_type` and `make_tuple_type` of src/type.cpp.
use bennu.Prelude.{
  ℕ, zero, suc, ◌+◌, ◌-◌, ◌<◌, ◌≡◌, ◌≢◌, ◌⊎◌, inl, inr, refl, ap, Bool, true, false, ◌||◌, List, [],
  ◌∷◌, some, length, get_elem?, All, ltb, arith, Bool-cases,
}
use bennu.HostStorage.Registry.{no_failure, size_overflow}
use bennu.Primitive.Select.{size_max}
use bennu.TypeArena.Types.{TypeArena, type_nodes}
use bennu.TypeArena.Validate.{HostAnswers}
use bennu.TypeArena.Ends.{validate_type-IsSome}
use bennu.TypeArena.Shape.{tuple_shape, type_shape}
use bennu.TypeArena.Equality.{Refuses, HostResourceErrorReason-cases}
use bennu.TypeArena.Equal.{later, validation_requests}
use bennu.TypeArena.Construct.{
  TypeConstructionResult, empty_type, refused_type, type_construction_failure, constructed_type,
  ElementCounts, Measured, unmeasured, measured, measure_elements, allocate_tuple, build_tuple,
  make_tuple_type,
}
use bennu.TypeArena.Gathered.{node_sum, edge_sum, gathered, gathered-Lengths, gather_elements-fits}
use bennu.TypeArena.Built.{
  IsAccepted, type_shapes, closed, close_tuple-fits, nothing_gathered, closed-shape,
}

-- The host's answers when the validation of the element at a position starts.
unfoldable pub answers_at : HostAnswers → List TypeArena → ℕ → HostAnswers
unfolding validation_requests
answers_at host elements zero = host
answers_at host [] (suc i) = host
answers_at host (element ∷ elements) (suc i) =
    answers_at (later host (validation_requests element)) elements i

-- The sizes of the tuple's arrays.
abbrev pub tuple_counts : List TypeArena → ElementCounts
tuple_counts elements = record {
  nodes = 1 + node_sum elements;
  edges = length elements + edge_sum elements;
}

-- Why the elements are not measured: the validation refuses one, or their sizes are too large.
abbrev pub Stops : HostAnswers → List TypeArena → ElementCounts → Type 0
Stops host elements counts =
    ((i : ℕ) × (element : TypeArena) × (get_elem? elements i ≡ some element)
      × Refuses (answers_at host elements i) element)
    ⊎ ((size_max < counts.nodes + node_sum elements)
        ⊎ (size_max < counts.edges + edge_sum elements))

abbrev IsMeasured : HostAnswers → List TypeArena → ElementCounts → Measured → Type 0
IsMeasured host elements counts (unmeasured result) =
    (result.ok ≡ false) × (result.type ≡ empty_type) × Stops host elements counts
IsMeasured host elements counts (measured answers sums) =
    (answers ≡ answers_at host elements (length elements))
    × All IsAccepted elements
    × (sums.nodes ≡ counts.nodes + node_sum elements)
    × (sums.edges ≡ counts.edges + edge_sum elements)

abbrev with_element : TypeArena → ElementCounts → ElementCounts
with_element element counts = record {
  nodes = counts.nodes + length (type_nodes element);
  edges = counts.edges + length element.child_indexes;
}

IsMeasured-cons :
    (host : HostAnswers) (element : TypeArena) (elements : List TypeArena) (counts : ElementCounts)
    (m : Measured)
    → IsAccepted element
    → IsMeasured (later host (validation_requests element)) elements (with_element element counts) m
    → IsMeasured host (element ∷ elements) counts m
unfolding node_sum edge_sum answers_at
IsMeasured-cons host element elements counts (unmeasured result) accepted (failed, empty, stops) = (
  failed,
  empty,
  elim stops [
    | inl (i, other, at, refused) ↦ inl (suc i, other, at, refused)
    | inr (inl nodes) ↦ inr (inl (omega (arith, nodes)))
    | inr (inr edges) ↦ inr (inr (omega (arith, edges)))
  ],
)
IsMeasured-cons host element elements counts (measured answers sums) accepted
      (reached, others, nodes, edges) =
    (reached, (accepted, others), omega (arith, nodes), omega (arith, edges))

exceeds : TypeArena → ElementCounts → Bool
exceeds element counts =
    ltb (size_max - counts.nodes) (length (type_nodes element))
    || ltb (size_max - counts.edges) (length element.child_indexes)

exceeds-Stops :
    (element : TypeArena) (elements : List TypeArena) (counts : ElementCounts)
    → exceeds element counts ≡ true
    → (size_max < counts.nodes + node_sum (element ∷ elements))
      ⊎ (size_max < counts.edges + edge_sum (element ∷ elements))
unfolding exceeds node_sum edge_sum
exceeds-Stops element elements counts e = ground arith

measure_elements-IsMeasured :
    (host : HostAnswers) (elements : List TypeArena) (counts : ElementCounts)
    → (m : Measured) × (measure_elements host elements counts ≡ some m)
      × IsMeasured host elements counts m
unfolding measure_elements node_sum edge_sum answers_at refused_type type_construction_failure
    exceeds
measure_elements-IsMeasured host [] counts =
    (measured host counts, refl, (refl, tt, omega arith, omega arith))
measure_elements-IsMeasured host (element ∷ elements) counts =
    let (r, e) = validate_type-IsSome host element in
    let (m, rest, well) =
      measure_elements-IsMeasured (later host (validation_requests element)) elements
        (with_element element counts) in
    elim (Bool-cases r.ok) [
      | inr refused ↦ (
        unmeasured (refused_type r),
        rw (e, refused) refl,
        (refl, refl, inl (0, element, refl, (r, e, refused))),
      )
      | inl ok ↦ elim (Bool-cases (exceeds element counts)) [
        | inl large ↦ (
          unmeasured (type_construction_failure size_overflow),
          rw (e, ok, large) refl,
          (refl, refl, inr (exceeds-Stops element elements counts large)),
        )
        | inr small ↦ (
          m,
          rw (e, ok, small) rest,
          IsMeasured-cons host element elements counts m (host, r, e, ok) well,
        )
      ]
    ]

-- The request for an array of the tuple, after the validations, that the host denies.
abbrev pub Denies : HostAnswers → List TypeArena → Type 0
Denies host elements =
    allocate_tuple (answers_at host elements (length elements)) (tuple_counts elements)
      (length elements)
    ≢ no_failure

-- The tuple of some types, or why there is none.
abbrev pub Builds : HostAnswers → List TypeArena → TypeConstructionResult → Type 0
Builds host elements v =
    ((v.ok ≡ true) × (type_shape v.type ≡ tuple_shape (type_shapes elements)))
    ⊎ ((v.ok ≡ false)
        × (v.type ≡ empty_type)
        × (Stops host elements (record { nodes = 1; edges = length elements })
            ⊎ Denies host elements))

build_tuple-granted :
    (answers : HostAnswers) (counts : ElementCounts) (elements : List TypeArena)
    → counts.nodes ≡ 1 + node_sum elements
    → counts.edges ≡ length elements + edge_sum elements
    → allocate_tuple answers counts (length elements) ≡ no_failure
    → build_tuple answers counts elements
      ≡ constructed_type (closed (gathered elements nothing_gathered))
unfolding build_tuple
build_tuple-granted answers counts elements nodes edges granted =
    let (n, e, r) = gathered-Lengths elements nothing_gathered in
    rw
      (
        build_tuple,
        granted,
        gather_elements-fits counts (length elements) elements nothing_gathered
            (omega (arith, nodes), omega (arith, edges), omega arith),
        close_tuple-fits counts (gathered elements nothing_gathered) (omega (arith, n, nodes))
            (omega (arith, e, r, edges)),
      )
      refl

build_tuple-denied :
    (answers : HostAnswers) (counts : ElementCounts) (elements : List TypeArena)
    → allocate_tuple answers counts (length elements) ≢ no_failure
    → build_tuple answers counts elements
      ≡ type_construction_failure (allocate_tuple answers counts (length elements))
unfolding build_tuple
build_tuple-denied answers counts elements denied = ground arith

measured-Builds :
    (host : HostAnswers) (elements : List TypeArena) (m : Measured)
    → measure_elements host elements (record { nodes = 1; edges = length elements }) ≡ some m
    → IsMeasured host elements (record { nodes = 1; edges = length elements }) m
    → (v : TypeConstructionResult) × (make_tuple_type host elements ≡ some v)
      × Builds host elements v
unfolding make_tuple_type type_construction_failure constructed_type
measured-Builds host elements (unmeasured result) e (failed, empty, stops) =
    (result, rw e refl, inr (failed, empty, inl stops))
measured-Builds host elements (measured answers counts) e (reached, accepted, nodes, edges) =
    elim (HostResourceErrorReason-cases (allocate_tuple answers counts (length elements))) [
      | inl granted ↦ (
        constructed_type (closed (gathered elements nothing_gathered)),
        rw e (ap (λ v. some v) (build_tuple-granted answers counts elements nodes edges granted)),
        inl (refl, closed-shape elements accepted),
      )
      | inr denial ↦ (
        type_construction_failure (allocate_tuple answers counts (length elements)),
        rw e (ap (λ v. some v) (build_tuple-denied answers counts elements denial)),
        inr (refl, refl, inr (λ granted. denial (rw (reached, nodes, edges) granted))),
      )
    ]

-- The construction of a tuple ends for all elements and all answers of the host. The tuple stands
-- for the tree with the trees of the elements below its root, in their order; or the construction is
-- refused and gives the empty type, since the validation refuses an element with the answers that
-- the host gives it there, since the sizes of the tuple are beyond a machine word, or since the host
-- denies the request for an array of those sizes. No array runs out of room.
pub make_tuple_type-Builds :
    (host : HostAnswers) (elements : List TypeArena)
    → (v : TypeConstructionResult) × (make_tuple_type host elements ≡ some v)
      × Builds host elements v
make_tuple_type-Builds host elements =
    let (m, e, well) =
      measure_elements-IsMeasured host elements (record { nodes = 1; edges = length elements }) in
    measured-Builds host elements m e well
