-- ===== src/TypeArena/Text.antt =====
-- The text of a shape, and what the stack of `format_type` of src/type.cpp is to write.
use bennu.Prelude.{
  ℕ, ◌+◌, ◌-◌, ◌*◌, ◌≤◌, ◌≡◌, refl, ap, sym, List, [], ◌∷◌, ◌++◌, length, length-append, arith,
  Bytes, codes, nat_eq,
}
use mathlib.Core.List.{append_assoc}
use bennu.Scalar.Types.{ScalarType, boolean, integer, double_precision}
use bennu.TypeArena.Shape.{
  Shape, Shapes, scalar_shape, vector_shape, tuple_shape, nil, cons, size, size_all, shapes_at,
}
use bennu.TypeArena.Sizes.{size_positive, total}
use bennu.TypeArena.Format.{scalar_type_name, FormatAction, node_action, text_action}

unfoldable mutual
  unfolding scalar_type_name

  pub shape_text : Shape → Bytes
  shape_text (scalar_shape element) = scalar_type_name element
  shape_text (vector_shape element) = codes "Vector<" ++ scalar_type_name element ++ codes ">"
  shape_text (tuple_shape elements) = codes "Tuple<" ++ elements_text elements ++ codes ">"

  pub elements_text : Shapes → Bytes
  elements_text nil = []
  elements_text (cons first rest) = shape_text first ++ further_text rest

  pub further_text : Shapes → Bytes
  further_text nil = []
  further_text (cons next rest) = codes ", " ++ shape_text next ++ further_text rest

scalar_type_name-length : (element : ScalarType) → length (scalar_type_name element) ≤ 6
unfolding scalar_type_name
scalar_type_name-length boolean = omega arith
scalar_type_name-length integer = omega arith
scalar_type_name-length double_precision = omega arith

mutual
  unfolding shape_text size

  shape_text-length : (s : Shape) → length (shape_text s) + 2 ≤ 16 * size s
  shape_text-length (scalar_shape element) = omega (arith, scalar_type_name-length element)
  shape_text-length (vector_shape element) =
      omega (
        arith,
        scalar_type_name-length element,
        length-append (scalar_type_name element) (codes ">"),
      )
  shape_text-length (tuple_shape elements) =
      omega
        (arith, elements_text-length elements, length-append (elements_text elements) (codes ">"))

  elements_text-length : (s : Shapes) → length (elements_text s) ≤ 16 * size_all s
  elements_text-length nil = omega arith
  elements_text-length (cons s ss) = omega (
    arith,
    shape_text-length s,
    further_text-length ss,
    length-append (shape_text s) (further_text ss),
  )

  further_text-length : (s : Shapes) → length (further_text s) ≤ 16 * size_all s
  further_text-length nil = omega arith
  further_text-length (cons s ss) = omega (
    arith,
    shape_text-length s,
    further_text-length ss,
    length-append (shape_text s) (further_text ss),
  )

pub shape_text-le-size : (s : Shape) → length (shape_text s) ≤ 16 * size s
shape_text-le-size s = omega (arith, shape_text-length s)

-- What the actions of a stack write, one after the other.
module _ (f : ℕ → Shape) where
  unfoldable pub action_text : FormatAction → Bytes
  action_text (node_action i) = shape_text (f i)
  action_text (text_action text) = text

  unfoldable pub stack_text : List FormatAction → Bytes
  unfolding action_text
  stack_text [] = []
  stack_text (action ∷ stack) = action_text action ++ stack_text stack

  -- How many actions a stack can still give rise to, at most.
  unfoldable pub action_cost : FormatAction → ℕ
  action_cost (node_action i) = 3 * size (f i) - 1
  action_cost (text_action text) = 1

  unfoldable pub stack_cost : List FormatAction → ℕ
  unfolding action_cost
  stack_cost [] = 0
  stack_cost (action ∷ stack) = action_cost action + stack_cost stack

  pub stack_cost-length : (stack : List FormatAction) → length stack ≤ stack_cost stack
  unfolding stack_cost
  stack_cost-length [] = omega arith
  stack_cost-length (node_action i ∷ stack) =
      omega (arith, stack_cost-length stack, size_positive (f i))
  stack_cost-length (text_action text ∷ stack) = omega (arith, stack_cost-length stack)

-- The actions for the elements of a tuple.
unfoldable pub further_actions : List ℕ → List FormatAction
further_actions [] = []
further_actions (i ∷ is) = text_action (codes ", ") ∷ node_action i ∷ further_actions is

unfoldable pub element_actions : List ℕ → List FormatAction
unfolding further_actions
element_actions [] = []
element_actions (i ∷ is) = node_action i ∷ further_actions is

module _ (f : ℕ → Shape) (stack : List FormatAction) where
  further_actions-text :
      (is : List ℕ)
      → stack_text f (further_actions is ++ stack)
        ≡ further_text (shapes_at f is) ++ stack_text f stack
  unfolding stack_text further_actions shape_text shapes_at
  further_actions-text [] = refl
  further_actions-text (i ∷ is) = rw (further_actions-text is) (
      ap (λ t. codes ", " ++ t)
        (sym
          (append_assoc (shape_text (f i)) (further_text (shapes_at f is)) (stack_text f stack))))

  pub element_actions-text :
      (is : List ℕ)
      → stack_text f (element_actions is ++ stack)
        ≡ elements_text (shapes_at f is) ++ stack_text f stack
  unfolding stack_text element_actions shape_text shapes_at
  element_actions-text [] = refl
  element_actions-text (i ∷ is) =
      rw (further_actions-text is)
        (sym (append_assoc (shape_text (f i)) (further_text (shapes_at f is)) (stack_text f stack)))

  further_actions-cost :
      (is : List ℕ)
      → stack_cost f (further_actions is ++ stack) ≡ 3 * total f is + stack_cost f stack
  unfolding stack_cost further_actions total
  further_actions-cost [] = omega arith
  further_actions-cost (i ∷ is) = omega (arith, further_actions-cost is, size_positive (f i))

  pub element_actions-cost :
      (is : List ℕ)
      → stack_cost f (element_actions is ++ stack) ≤ 3 * total f is + stack_cost f stack
  unfolding stack_cost element_actions total
  element_actions-cost [] = omega arith
  element_actions-cost (i ∷ is) = omega (arith, further_actions-cost is, size_positive (f i))
