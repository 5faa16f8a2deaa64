-- ===== src/TypeArena/Formatted.antt =====
-- The loop of `format_type` of src/type.cpp against the text of the type's shape.
use bennu.Prelude.{
  ℕ, zero, suc, ◌+◌, ◌*◌, ◌<◌, ◌≤◌, ◌≡◌, inl, inr, refl, ap, sym, ◌∙◌, List, [], ◌∷◌, ◌++◌, Option,
  some, length, length-append, arith, Bytes, codes, nat_eq,
}
use mathlib.Core.List.{append_assoc, append-nil}
use bennu.TypeArena.Types.{TypeKind, TypeArena, TypeNode, scalar, vector, tuple}
use bennu.TypeArena.Postorder.{node_at, IsGood}
use bennu.TypeArena.Shape.{Shape, children_of, shapes_at, shape_of, shape_at, shape_at-node}
use bennu.TypeArena.Sizes.{size_positive, TypeKind-cases, size-tuple, length-total, length-children}
use bennu.TypeArena.Format.{
  scalar_type_name, FormatAction, node_action, text_action, append_text, Formatting, Capacities,
  format_scalar, format_vector, format_tuple, with_stack, format_action, format_actions,
  formatted_type,
}
use bennu.TypeArena.Text.{
  shape_text, elements_text, action_text, stack_text, action_cost, stack_cost, stack_cost-length,
  element_actions, element_actions-text, element_actions-cost,
}
use bennu.TypeArena.Pushed.{append_text-fits, push_action-fits, push_elements-fits}

module _ (type : TypeArena) (good : (j : ℕ) → IsGood type j) where
  abbrev shape : ℕ → Shape
  shape i = shape_at type i

  -- A step of the loop leaves the text to be written as it was, and fewer actions.
  Writes : FormatAction → Bytes → List FormatAction → Formatting → Type 0
  Writes action formatted stack f =
      (f.formatted ++ stack_text shape f.stack ≡ formatted ++ stack_text shape (action ∷ stack))
      × (stack_cost shape f.stack < stack_cost shape (action ∷ stack))

  node_text :
      (i : ℕ)
      → shape_text (shape i)
        ≡ shape_text (
            shape_of
              (node_at type i).kind
              (node_at type i).element
              (shapes_at shape (children_of type i)))
  node_text i = ap shape_text (shape_at-node type good i)

  kind_text :
      (i : ℕ) (kind : TypeKind)
      → (node_at type i).kind ≡ kind
      → shape_text (shape i)
        ≡ shape_text (shape_of kind (node_at type i).element (shapes_at shape (children_of type i)))
  kind_text i kind h =
      node_text i
      ∙ ap
          (λ k.
            shape_text (shape_of k (node_at type i).element (shapes_at shape (children_of type i))))
          h

  module _ (room : Capacities) (formatted : Bytes) (stack : List FormatAction) where
    -- What is written and what is to be written fit in the text, and the actions in the stack.
    HasRoom : FormatAction → Type 0
    HasRoom action =
        (length (formatted ++ stack_text shape (action ∷ stack)) ≤ room.text)
        × (stack_cost shape (action ∷ stack) ≤ room.stack)

    text_room :
        (action : FormatAction)
        → HasRoom action
        → length formatted + length (action_text shape action) ≤ room.text
    unfolding HasRoom stack_text
    text_room action fits = omega (
      arith,
      fits.0,
      length-append formatted (action_text shape action ++ stack_text shape stack),
      length-append (action_text shape action) (stack_text shape stack),
    )

    action_cost_positive : (action : FormatAction) → 0 < action_cost shape action
    unfolding action_cost
    action_cost_positive (node_action i) = omega (arith, size_positive (shape i))
    action_cost_positive (text_action text) = omega arith

    -- A step that writes the whole text of its action.
    written-Writes :
        (action : FormatAction) (written : Option Bytes)
        → written ≡ some (formatted ++ action_text shape action)
        → (f : Formatting) × (with_stack stack written ≡ some f) × Writes action formatted stack f
    unfolding Writes stack_text stack_cost action_cost
    written-Writes action written e = (
      record { formatted = formatted ++ action_text shape action; stack = stack },
      rw e refl,
      (
        append_assoc formatted (action_text shape action) (stack_text shape stack),
        omega (arith, action_cost_positive action),
      ),
    )

    format_vector-fits :
        (node : TypeNode)
        → length formatted + length (codes "Vector<" ++ scalar_type_name node.element ++ codes ">")
          ≤ room.text
        → format_vector room node formatted
          ≡ some (formatted ++ (codes "Vector<" ++ scalar_type_name node.element ++ codes ">"))
    unfolding format_vector
    format_vector-fits node fits =
        let name = scalar_type_name node.element in
        let opened = formatted ++ codes "Vector<" in
        let l = length-append formatted (codes "Vector<") in
        let l' = length-append opened name in
        let l'' = length-append name (codes ">") in
        rw
          (
            append_text-fits room.text formatted (codes "Vector<") (omega arith),
            append_text-fits room.text opened name (omega arith),
            append_text-fits room.text (opened ++ name) (codes ">") (omega arith),
          )
          (ap (λ t. some t)
            (ap (λ t. t ++ codes ">") (append_assoc formatted (codes "Vector<") name)
              ∙ append_assoc formatted (codes "Vector<" ++ name) (codes ">")))

    scalar-Writes :
        (i : ℕ)
        → (node_at type i).kind ≡ scalar
        → HasRoom (node_action i)
        → (f : Formatting) × (with_stack stack (format_scalar room (node_at type i) formatted)
            ≡ some f)
          × Writes (node_action i) formatted stack f
    unfolding format_scalar action_text shape_of shape_text
    scalar-Writes i h fits =
        let text = kind_text i scalar h in
        written-Writes (node_action i) (format_scalar room (node_at type i) formatted) (
          append_text-fits room.text formatted (scalar_type_name (node_at type i).element)
            (omega (arith, text_room (node_action i) fits, ap length text))
          ∙ ap (λ t. some (formatted ++ t)) (sym text))

    vector-Writes :
        (i : ℕ)
        → (node_at type i).kind ≡ vector
        → HasRoom (node_action i)
        → (f : Formatting) × (with_stack stack (format_vector room (node_at type i) formatted)
            ≡ some f)
          × Writes (node_action i) formatted stack f
    unfolding action_text shape_text shape_of
    vector-Writes i h fits =
        let text = kind_text i vector h in
        written-Writes (node_action i) (format_vector room (node_at type i) formatted) (
          format_vector-fits (node_at type i)
            (omega (arith, text_room (node_action i) fits, ap length text))
          ∙ ap (λ t. some (formatted ++ t)) (sym text))

    abbrev pushed_behind : ℕ → List FormatAction
    pushed_behind i = element_actions (children_of type i) ++ (text_action (codes ">") ∷ stack)

    -- The elements are no more than the nodes below the tuple.
    elements_room :
        (i : ℕ)
        → (node_at type i).kind ≡ tuple
        → HasRoom (node_action i)
        → length stack + 2 + 2 * (node_at type i).child_count ≤ room.stack + 1
    unfolding HasRoom stack_cost action_cost
    elements_room i h fits =
        let node = node_at type i in
        let below = size-tuple type good i h in
        omega (
          arith,
          fits.1,
          below,
          stack_cost-length shape stack,
          length-children type node.first_child node.child_count,
          length-total shape (children_of type i),
        )

    format_tuple-fits :
        (i : ℕ)
        → (node_at type i).kind ≡ tuple
        → HasRoom (node_action i)
        → format_tuple room type (node_at type i) formatted stack
          ≡ some (record { formatted = formatted ++ codes "Tuple<"; stack = pushed_behind i })
    unfolding format_tuple action_text shape_of shape_text
    format_tuple-fits i h fits =
        let node = node_at type i in
        let enough = elements_room i h fits in
        let text = ap length (kind_text i tuple h) in
        rw
          (
            append_text-fits room.text formatted (codes "Tuple<")
                (omega (arith, text_room (node_action i) fits, text)),
            push_action-fits room.stack (text_action (codes ">")) stack (omega (arith, enough)),
            push_elements-fits room.stack type node.first_child node.child_count
                (text_action (codes ">") ∷ stack) (omega (arith, enough)),
          )
          refl

    tuple-Writes :
        (i : ℕ)
        → (node_at type i).kind ≡ tuple
        → HasRoom (node_action i)
        → (f : Formatting) × (format_tuple room type (node_at type i) formatted stack ≡ some f)
          × Writes (node_action i) formatted stack f
    unfolding Writes stack_text stack_cost action_text action_cost shape_of shape_text
    tuple-Writes i h fits =
        let is = children_of type i in
        let behind = text_action (codes ">") ∷ stack in
        let below = size-tuple type good i h in
        let elements = elements_text (shapes_at shape is) in
        let rest = stack_text shape stack in
        let shut = ap (λ t. codes "Tuple<" ++ t) (sym (append_assoc elements (codes ">") rest)) in
        (
          record { formatted = formatted ++ codes "Tuple<"; stack = pushed_behind i },
          format_tuple-fits i h fits,
          (
            append_assoc formatted (codes "Tuple<") (stack_text shape (pushed_behind i))
                ∙ ap (λ t. formatted ++ t)
                    (ap (λ t. codes "Tuple<" ++ t) (element_actions-text shape behind is)
                      ∙ shut
                      ∙ ap (λ t. t ++ rest) (sym (kind_text i tuple h))),
            omega (arith, below, element_actions-cost shape behind is),
          ),
        )

    format_action-Writes :
        (action : FormatAction)
        → HasRoom action
        → (f : Formatting) × (format_action room type action formatted stack ≡ some f)
          × Writes action formatted stack f
    unfolding format_action action_text
    format_action-Writes (text_action text) fits =
        written-Writes (text_action text) (append_text room.text formatted text)
          (append_text-fits room.text formatted text (text_room (text_action text) fits))
    format_action-Writes (node_action i) fits = elim (TypeKind-cases (node_at type i).kind) [
      | inl (inl h) ↦ rw (format_action, h) (scalar-Writes i h fits)
      | inl (inr h) ↦ rw (format_action, h) (vector-Writes i h fits)
      | inr h ↦ rw (format_action, h) (tuple-Writes i h fits)
    ]

  format_actions-next :
      (room : Capacities) (fuel : ℕ) (action : FormatAction) (formatted : Bytes)
      (stack : List FormatAction) (f : Formatting)
      → format_action room type action formatted stack ≡ some f
      → format_actions room type (suc fuel) formatted (action ∷ stack)
        ≡ format_actions room type fuel f.formatted f.stack
  unfolding format_actions
  format_actions-next room fuel action formatted stack f e = ground arith

  -- With room for what is to be written, the loop writes it.
  pub format_actions-written :
      (room : Capacities) (fuel : ℕ) (formatted : Bytes) (stack : List FormatAction)
      → length (formatted ++ stack_text shape stack) ≤ room.text
      → stack_cost shape stack ≤ room.stack
      → stack_cost shape stack ≤ fuel
      → format_actions room type fuel formatted stack
        ≡ some (formatted_type (formatted ++ stack_text shape stack))
  unfolding format_actions HasRoom Writes stack_text
  format_actions-written room fuel formatted [] fits room_left enough =
      ap (λ t. some (formatted_type t)) (sym (append-nil formatted))
  format_actions-written room zero formatted (action ∷ stack) fits room_left enough =
      absurd (omega (arith, stack_cost-length shape (action ∷ stack)))
  format_actions-written room (suc fuel) formatted (action ∷ stack) fits room_left enough =
      let (f, on, (same, fewer)) =
        format_action-Writes room formatted stack action (fits, room_left) in
      format_actions-next room fuel action formatted stack f on
      ∙ format_actions-written room fuel f.formatted f.stack (omega (arith, fits, ap length same))
          (omega arith) (omega arith)
      ∙ ap (λ t. some (formatted_type t)) same
