-- ===== src/TypeArena/Printed.antt =====
-- The verdicts of `format_type` of src/type.cpp.
use bennu.Prelude.{
  ◌+◌, ◌*◌, ◌<◌, ◌≡◌, ◌≢◌, ◌⊎◌, inl, inr, refl, ap, ◌∙◌, true, false, [], ◌∷◌, some, length, arith,
  Bool-cases,
}
use mathlib.Core.List.{append-nil}
use bennu.HostStorage.Registry.{HostResourceErrorReason, no_failure, size_overflow}
use bennu.Primitive.Select.{size_max}
use bennu.TypeArena.Types.{TypeArena, type_nodes, TypeValidationResult}
use bennu.TypeArena.Validate.{HostAnswers, request, first_failure, validate_type}
use bennu.TypeArena.Ends.{validate_type-IsSome}
use bennu.TypeArena.Accepted.{validate_type-IsGood}
use bennu.TypeArena.Shape.{shape_at, type_shape}
use bennu.TypeArena.Sizes.{validate_type-size}
use bennu.TypeArena.Equality.{Refuses, HostResourceErrorReason-cases}
use bennu.TypeArena.Equal.{later, validation_requests}
use bennu.TypeArena.Format.{
  TypeFormattingResult, type_formatting_failure, formatted_type, out_of_resources, node_action,
  format_actions, format_capacities, capacities_overflow, format_accepted, refused_format,
  format_type,
}
use bennu.TypeArena.Text.{
  shape_text, shape_text-le-size, stack_text, stack_cost, action_text, action_cost,
}
use bennu.TypeArena.Formatted.{format_actions-written}

abbrev pub format_requests : HostAnswers → TypeArena → HostResourceErrorReason
format_requests host type =
    let room = format_capacities type in
    first_failure (request host 0 room.text) (request host 1 room.stack)

abbrev pub IsTooLarge : TypeArena → Type 0
IsTooLarge type = size_max < length (type_nodes type) * 16 + length type.child_indexes * 2

module _ (host : HostAnswers) (type : TypeArena) (r : TypeValidationResult)
    (accepted : validate_type host type ≡ some r) (ok : r.ok ≡ true) where
  capacities_overflow-IsTooLarge : capacities_overflow type ≡ true → IsTooLarge type
  unfolding capacities_overflow
  capacities_overflow-IsTooLarge e =
      let edges = (validate_type-size host type r accepted ok).1 in ground (arith, edges)

  format_root :
      let room = format_capacities type in
      format_actions room type room.stack [] (node_action type.root_index ∷ [])
      ≡ some (formatted_type (shape_text (type_shape type)))
  unfolding stack_text stack_cost action_text action_cost type_shape
  format_root =
      let room = format_capacities type in
      let (nodes, edges) = validate_type-size host type r accepted ok in
      let text = append-nil (shape_text (shape_at type type.root_index)) in
      format_actions-written type (validate_type-IsGood host type r accepted ok) room room.stack []
        (node_action type.root_index ∷ [])
        (omega (arith, ap length text, shape_text-le-size (type_shape type), nodes))
        (omega (arith, nodes, edges)) (omega (arith, nodes, edges))
      ∙ ap (λ t. some (formatted_type t)) text

  format_accepted-granted :
      (answers : HostAnswers)
      → capacities_overflow type ≡ false
      → format_requests answers type ≡ no_failure
      → format_accepted answers type ≡ some (formatted_type (shape_text (type_shape type)))
  unfolding format_accepted
  format_accepted-granted answers fits granted = ground (arith, format_root)

format_accepted-overflow :
    (answers : HostAnswers) (type : TypeArena)
    → capacities_overflow type ≡ true
    → format_accepted answers type ≡ some (out_of_resources size_overflow)
unfolding format_accepted
format_accepted-overflow answers type e = ground arith

format_accepted-denied :
    (answers : HostAnswers) (type : TypeArena)
    → capacities_overflow type ≡ false
    → format_requests answers type ≢ no_failure
    → format_accepted answers type ≡ some (out_of_resources (format_requests answers type))
unfolding format_accepted
format_accepted-denied answers type fits denied = ground arith

abbrev pub behind_type : HostAnswers → TypeArena → HostAnswers
behind_type host type = later host (validation_requests type)

-- The text, or why there is none.
abbrev pub Prints : HostAnswers → TypeArena → TypeFormattingResult → Type 0
Prints host type r =
    ((r.ok ≡ true) × (r.formatted ≡ shape_text (type_shape type)))
    ⊎ ((r.ok ≡ false)
        × (r.formatted ≡ [])
        × (Refuses host type
            ⊎ (IsTooLarge type ⊎ (format_requests (behind_type host type) type ≢ no_failure))))

accepted-Prints :
    (host : HostAnswers) (type : TypeArena) (r : TypeValidationResult)
    → validate_type host type ≡ some r
    → r.ok ≡ true
    → (v : TypeFormattingResult) × (format_accepted (behind_type host type) type ≡ some v)
      × Prints host type v
unfolding formatted_type out_of_resources type_formatting_failure
accepted-Prints host type r e ok =
    let answers = behind_type host type in
    elim (Bool-cases (capacities_overflow type)) [
      | inl large ↦ (
        _,
        format_accepted-overflow answers type large,
        inr (refl, refl, inr (inl (capacities_overflow-IsTooLarge host type r e ok large))),
      )
      | inr fits ↦ elim (HostResourceErrorReason-cases (format_requests answers type)) [
        | inl granted ↦
            (_, format_accepted-granted host type r e ok answers fits granted, inl (refl, refl))
        | inr denial ↦
            (_, format_accepted-denied answers type fits denial, inr (refl, refl, inr (inr denial)))
      ]
    ]

refused_format-empty :
    (r : TypeValidationResult)
    → ((refused_format r).ok ≡ false) × ((refused_format r).formatted ≡ [])
unfolding refused_format out_of_resources type_formatting_failure
refused_format-empty r = (ground arith, ground arith)

-- The formatting of a type ends on all arenas and all answers of the host. Its text is that of the
-- tree that the arena stands for; or it is refused and gives no text, since the validation refuses
-- the type, the sizes of its text and stack are beyond a machine word, or the host denies one of the
-- two. The stack and the text never run out of room.
pub format_type-Prints :
    (host : HostAnswers) (type : TypeArena)
    → (v : TypeFormattingResult) × (format_type host type ≡ some v) × Prints host type v
unfolding format_type
format_type-Prints host type =
    let (r, e) = validate_type-IsSome host type in
    elim (Bool-cases r.ok) [
      | inl ok ↦
          let (v, result, prints) = accepted-Prints host type r e ok in
          (v, rw (format_type, e, ok) result, prints)
      | inr refused ↦
          let (failed, empty) = refused_format-empty r in
          (
            refused_format r,
            rw (format_type, e, refused) refl,
            inr (failed, empty, inl (r, e, refused)),
          )
    ]
