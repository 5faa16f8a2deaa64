-- ===== src/TypeArena/Pushed.antt =====
-- The pushes of `format_type` of src/type.cpp where there is room.
use bennu.Prelude.{
  ℕ, zero, suc, ◌+◌, ◌*◌, ◌<◌, ◌≤◌, ◌≡◌, refl, ap, sym, ◌∙◌, false, List, [], ◌∷◌, ◌++◌, some,
  length, arith, Bytes, codes, ◌==◌, nat_eq,
}
use mathlib.Core.List.{append-nil}
use bennu.TypeArena.Types.{TypeArena}
use bennu.TypeArena.Postorder.{child}
use bennu.TypeArena.Shape.{children}
use bennu.TypeArena.Sizes.{children-last}
use bennu.TypeArena.Format.{
  FormatAction, node_action, text_action, append_text, push_action, push_elements,
}
use bennu.TypeArena.Arrays.{push_all-fits}
use bennu.TypeArena.Text.{further_actions, element_actions}

further_actions-last :
    (is : List ℕ) (last : ℕ) (stack : List FormatAction)
    → further_actions (is ++ (last ∷ [])) ++ stack
      ≡ further_actions is ++ (text_action (codes ", ") ∷ node_action last ∷ stack)
unfolding further_actions
further_actions-last [] last stack = refl
further_actions-last (i ∷ is) last stack =
    ap (λ actions. text_action (codes ", ") ∷ node_action i ∷ actions)
      (further_actions-last is last stack)

-- What the loop over the elements pushes for an element, behind those that come before it.
abbrev with_last : ℕ → ℕ → List FormatAction → List FormatAction
with_last zero last stack = node_action last ∷ stack
with_last (suc before) last stack = text_action (codes ", ") ∷ node_action last ∷ stack

children-snoc :
    (type : TypeArena) (edge count : ℕ)
    → children type edge (suc count) ≡ children type edge count ++ (child type (edge + count) ∷ [])
children-snoc type edge count =
    sym (append-nil (children type edge (suc count))) ∙ children-last type edge count []

element_actions-snoc :
    (type : TypeArena) (edge count last : ℕ) (stack : List FormatAction)
    → element_actions (children type edge count ++ (last ∷ [])) ++ stack
      ≡ element_actions (children type edge count) ++ with_last count last stack
unfolding element_actions further_actions children
element_actions-snoc type edge zero last stack = refl
element_actions-snoc type edge (suc count) last stack =
    ap (λ actions. node_action (child type edge) ∷ actions)
      (further_actions-last (children type (edge + 1) count) last stack)

element_actions-last :
    (type : TypeArena) (edge count : ℕ) (stack : List FormatAction)
    → element_actions (children type edge (suc count)) ++ stack
      ≡ element_actions (children type edge count)
        ++ with_last count (child type (edge + count)) stack
element_actions-last type edge count stack =
    rw (children-snoc type edge count)
      (element_actions-snoc type edge count (child type (edge + count)) stack)

pub push_action-fits :
    (capacity : ℕ) (action : FormatAction) (stack : List FormatAction)
    → length stack < capacity
    → push_action capacity action stack ≡ some (action ∷ stack)
unfolding push_action
push_action-fits capacity action stack h = ground arith

push_elements-next :
    (capacity : ℕ) (type : TypeArena) (first_child count : ℕ) (stack : List FormatAction)
    → length stack + 2 * suc count ≤ capacity + 1
    → push_elements capacity type first_child (suc count) stack
      ≡ push_elements capacity type first_child count
          (with_last count (child type (first_child + count)) stack)
unfolding push_elements
push_elements-next capacity type first_child zero stack h =
    rw (push_action-fits capacity (node_action (child type (first_child + 0))) stack (omega arith))
      refl
push_elements-next capacity type first_child (suc count) stack h =
    let last = node_action (child type (first_child + suc count)) in
    let pushed = push_action-fits capacity last stack (omega arith) in
    let some_before : (suc count == 0) ≡ false = ground arith in
    let separated =
      push_action-fits capacity (text_action (codes ", ")) (last ∷ stack) (omega arith) in
    rw (pushed, some_before, separated) refl

pub push_elements-fits :
    (capacity : ℕ) (type : TypeArena) (first_child count : ℕ) (stack : List FormatAction)
    → length stack + 2 * count ≤ capacity + 1
    → push_elements capacity type first_child count stack
      ≡ some (element_actions (children type first_child count) ++ stack)
unfolding push_elements children element_actions
push_elements-fits capacity type first_child zero stack h = refl
push_elements-fits capacity type first_child (suc count) stack h =
    let last = child type (first_child + count) in
    push_elements-next capacity type first_child count stack h
    ∙ push_elements-fits capacity type first_child count (with_last count last stack)
        (with_last-room count h)
    ∙ ap (λ actions. some actions) (sym (element_actions-last type first_child count stack))
  where
    with_last-room :
        (before : ℕ)
        → length stack + 2 * suc before ≤ capacity + 1
        → length (with_last before (child type (first_child + count)) stack) + 2 * before
          ≤ capacity + 1
    with_last-room zero h = omega arith
    with_last-room (suc before) h = omega arith

pub append_text-fits :
    (capacity : ℕ) (formatted text : Bytes)
    → length formatted + length text ≤ capacity
    → append_text capacity formatted text ≡ some (formatted ++ text)
unfolding append_text
append_text-fits capacity formatted text h = push_all-fits capacity formatted text h
