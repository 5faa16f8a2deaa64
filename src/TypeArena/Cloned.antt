-- ===== src/TypeArena/Cloned.antt =====
-- The verdicts of `clone_type` of src/type.cpp.
use bennu.Prelude.{
  ◌≡◌, ◌≢◌, ◌⊎◌, inl, inr, refl, ap, sym, ◌∙◌, true, false, List, [], ◌∷◌, none, some, length,
  arith, Bool-cases, Option-cases,
}
use bennu.HostStorage.Registry.{HostResourceErrorReason, no_failure}
use bennu.TypeArena.Types.{TypeArena, TypeNode, type_nodes, TypeValidationResult, invalid_type}
use bennu.TypeArena.Validate.{HostAnswers, request, first_failure, validate_type, has_both}
use bennu.TypeArena.Ends.{validate_type-IsSome}
use bennu.TypeArena.Accepted.{validate_type-start}
use bennu.TypeArena.Sizes.{validate_type-size}
use bennu.TypeArena.Equality.{Refuses, HostResourceErrorReason-cases}
use bennu.TypeArena.Arrays.{push_all-fits}
use bennu.TypeArena.Printed.{behind_type}
use bennu.TypeArena.Construct.{
  TypeConstructionResult, empty_type, refused_type, type_construction_failure, constructed_type,
  construction, copy_arrays, clone_accepted, clone_type,
}

abbrev pub copy_requests : HostAnswers → TypeArena → HostResourceErrorReason
copy_requests host type =
    first_failure (request host 0 (length (type_nodes type)))
      (request host 1 (length type.child_indexes))

-- The same arena, or why there is none.
abbrev pub Copies : HostAnswers → TypeArena → TypeConstructionResult → Type 0
Copies host type v =
    ((v.ok ≡ true) × (v.type ≡ type))
    ⊎ ((v.ok ≡ false)
        × (v.type ≡ empty_type)
        × (Refuses host type ⊎ (copy_requests (behind_type host type) type ≢ no_failure)))

validate_type-one_leaf :
    (host : HostAnswers) (type : TypeArena) (r : TypeValidationResult)
    → validate_type host type ≡ some r
    → r.ok ≡ true
    → has_both type ≡ false
unfolding validate_type invalid_type
validate_type-one_leaf host type r e ok = ground arith

nodes-nil : {A : Type 0} (xs : List A) → length xs ≡ 0 → xs ≡ []
nodes-nil [] h = refl
nodes-nil (x ∷ xs) h = absurd (omega arith)

TypeArena_ext :
    (a b : TypeArena)
    → a.nodes ≡ b.nodes
    → a.child_indexes ≡ b.child_indexes
    → a.root_index ≡ b.root_index
    → a.inline_leaf ≡ b.inline_leaf
    → a ≡ b
TypeArena_ext a b nodes edges root leaf = λ i. record {
  nodes = nodes i;
  child_indexes = edges i;
  root_index = root i;
  inline_leaf = leaf i;
}

leaf-same :
    (type : TypeArena) (leaf : TypeNode)
    → type.inline_leaf ≡ some leaf
    → length type.nodes ≡ 0
    → length type.child_indexes ≡ 0
    → type.root_index ≡ 0
    → record { nodes = []; child_indexes = []; root_index = 0; inline_leaf = some leaf } ≡ type
leaf-same type leaf inline nodes edges root =
    TypeArena_ext _ type (sym (nodes-nil type.nodes nodes))
      (sym (nodes-nil type.child_indexes edges)) (sym root) (sym inline)

copy_arrays-same : (type : TypeArena) → type.inline_leaf ≡ none → copy_arrays type ≡ some type
unfolding copy_arrays type_nodes
copy_arrays-same type none_inline =
    rw
      (
        push_all-fits (length (type_nodes type)) [] (type_nodes type) (omega arith),
        push_all-fits (length type.child_indexes) [] type.child_indexes (omega arith),
      )
      (ap (λ t. some t)
        (TypeArena_ext (record type { nodes = type_nodes type; inline_leaf = none }) type
          (rw (type_nodes, none_inline) refl) refl refl (sym none_inline)))

clone_accepted-leaf :
    (answers : HostAnswers) (type : TypeArena) (leaf : TypeNode)
    → type.inline_leaf ≡ some leaf
    → clone_accepted answers type
      ≡ constructed_type
          (record { nodes = []; child_indexes = []; root_index = 0; inline_leaf = some leaf })
unfolding clone_accepted
clone_accepted-leaf answers type leaf inline = ground arith

clone_accepted-arrays :
    (answers : HostAnswers) (type : TypeArena)
    → type.inline_leaf ≡ none
    → copy_requests answers type ≡ no_failure
    → clone_accepted answers type ≡ construction (copy_arrays type)
unfolding clone_accepted
clone_accepted-arrays answers type none_inline granted = ground arith

clone_accepted-denied :
    (answers : HostAnswers) (type : TypeArena)
    → type.inline_leaf ≡ none
    → copy_requests answers type ≢ no_failure
    → clone_accepted answers type ≡ type_construction_failure (copy_requests answers type)
unfolding clone_accepted
clone_accepted-denied answers type none_inline denied = ground arith

accepted_leaf-same :
    (host : HostAnswers) (type : TypeArena) (r : TypeValidationResult) (leaf : TypeNode)
    → validate_type host type ≡ some r
    → r.ok ≡ true
    → type.inline_leaf ≡ some leaf
    → record { nodes = []; child_indexes = []; root_index = 0; inline_leaf = some leaf } ≡ type
unfolding type_nodes
accepted_leaf-same host type r leaf e ok inline =
    let one : length (type_nodes type) ≡ 1 = rw (type_nodes, inline) refl in
    let edges = (validate_type-size host type r e ok).1 in
    let root = (validate_type-start host type r e ok).0 in
    let no_nodes = validate_type-one_leaf host type r e ok in
    leaf-same type leaf inline (ground arith) (omega arith) (omega arith)

accepted-Copies :
    (host : HostAnswers) (type : TypeArena) (r : TypeValidationResult)
    → validate_type host type ≡ some r
    → r.ok ≡ true
    → (v : TypeConstructionResult) × (clone_accepted (behind_type host type) type ≡ v)
      × Copies host type v
unfolding constructed_type type_construction_failure
accepted-Copies host type r e ok =
    let answers = behind_type host type in
    elim (Option-cases type.inline_leaf) [
      | inr (leaf, inline) ↦ (
        _,
        clone_accepted-leaf answers type leaf inline,
        inl (refl, accepted_leaf-same host type r leaf e ok inline),
      )
      | inl none_inline ↦ elim (HostResourceErrorReason-cases (copy_requests answers type)) [
        | inl granted ↦ (
          constructed_type type,
          clone_accepted-arrays answers type none_inline granted
              ∙ ap construction (copy_arrays-same type none_inline),
          inl (refl, refl),
        )
        | inr denial ↦
            (_, clone_accepted-denied answers type none_inline denial, inr (refl, refl, inr denial))
      ]
    ]

-- The copy of a type ends on all arenas and all answers of the host. It is the same arena; or it is
-- refused and gives the empty type, since the validation refuses the type or the host denies an
-- array. No array runs out of room.
pub clone_type-Copies :
    (host : HostAnswers) (type : TypeArena)
    → (v : TypeConstructionResult) × (clone_type host type ≡ some v) × Copies host type v
unfolding clone_type refused_type
clone_type-Copies host type =
    let (r, e) = validate_type-IsSome host type in
    elim (Bool-cases r.ok) [
      | inl ok ↦
          let (v, result, copies) = accepted-Copies host type r e ok in
          (v, rw (clone_type, e, ok) (ap (λ t. some t) result), copies)
      | inr refused ↦
          (refused_type r, rw (clone_type, e, refused) refl, inr (refl, refl, inl (r, e, refused)))
    ]
