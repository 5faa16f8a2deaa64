-- ===== src/TypeArena/Format.antt =====
-- `format_type` of src/type.cpp. What a refusal leaves in the storage of the text is not kept.
use bennu.Prelude.{
  ℕ, zero, suc, ◌+◌, ◌-◌, ◌*◌, ◌/◌, Bool, true, false, not, ◌||◌, List, [], ◌∷◌, Option, none, some,
  length, ltb, ◌>>=◌, if◌then◌else◌, ◌==◌, nat_eq, Bytes, codes,
}
use bennu.Scalar.Types.{ScalarType, boolean, integer, double_precision}
use bennu.HostStorage.Registry.{
  HostResourceErrorReason, no_failure, size_overflow, allocation_unavailable,
}
use bennu.Primitive.Select.{size_max}
use bennu.TypeArena.Types.{
  scalar, vector, tuple, TypeNode, TypeArena, TypeInvariant, no_violation, type_nodes,
  TypeValidationResult,
}
use bennu.TypeArena.Validate.{HostAnswers, request, first_failure, validate_type}
use bennu.TypeArena.Postorder.{child, node_at}
use bennu.TypeArena.Arrays.{push_all}
use bennu.TypeArena.Equal.{later, validation_requests}

pub data TypeFormatError : Type 0 where
  no_format_error invalid_type_error conversion_failure : TypeFormatError

pub record TypeFormattingResult : Type 0 where
  pub ok : Bool
  pub formatted : Bytes
  pub invariant : TypeInvariant
  pub error : TypeFormatError
  pub resource_error : HostResourceErrorReason

unfoldable pub type_formatting_failure :
    TypeInvariant → TypeFormatError → HostResourceErrorReason → TypeFormattingResult
type_formatting_failure invariant error reason = record {
  ok = false;
  formatted = [];
  invariant = invariant;
  error = error;
  resource_error = reason;
}

unfoldable pub formatted_type : Bytes → TypeFormattingResult
formatted_type text = record {
  ok = true;
  formatted = text;
  invariant = no_violation;
  error = no_format_error;
  resource_error = no_failure;
}

unfoldable pub out_of_resources : HostResourceErrorReason → TypeFormattingResult
unfolding type_formatting_failure
out_of_resources reason = type_formatting_failure no_violation no_format_error reason

unfoldable pub scalar_type_name : ScalarType → Bytes
scalar_type_name boolean = codes "Bool"
scalar_type_name integer = codes "Int"
scalar_type_name double_precision = codes "Double"

pub data FormatAction : Type 0 where
  node_action : ℕ → FormatAction
  text_action : Bytes → FormatAction

unfoldable pub append_text : ℕ → Bytes → Bytes → Option Bytes
unfolding push_all
append_text capacity formatted text = push_all capacity formatted text

-- `host_array_push` on the stack, whose last element is the first of the list.
unfoldable pub push_action : ℕ → FormatAction → List FormatAction → Option (List FormatAction)
push_action capacity action stack =
    if ltb (length stack) capacity then some (action ∷ stack) else none

-- The loop that pushes the elements of a tuple and what stands between them, the last one first.
unfoldable pub push_elements :
    ℕ → TypeArena → ℕ → ℕ → List FormatAction → Option (List FormatAction)
unfolding push_action
push_elements capacity type first_child zero stack = some stack
push_elements capacity type first_child (suc child_offset) stack = do
  pushed ← push_action capacity (node_action (child type (first_child + child_offset))) stack
  next ←
      if child_offset == 0
      then some pushed
      else push_action capacity (text_action (codes ", ")) pushed
  push_elements capacity type first_child child_offset next

pub record Formatting : Type 0 where
  pub formatted : Bytes
  pub stack : List FormatAction

pub record Capacities : Type 0 where
  pub text : ℕ
  pub stack : ℕ

unfoldable pub format_scalar : Capacities → TypeNode → Bytes → Option Bytes
unfolding append_text scalar_type_name
format_scalar room node formatted = append_text room.text formatted (scalar_type_name node.element)

unfoldable pub format_vector : Capacities → TypeNode → Bytes → Option Bytes
unfolding append_text scalar_type_name
format_vector room node formatted = do
  opened ← append_text room.text formatted (codes "Vector<")
  named ← append_text room.text opened (scalar_type_name node.element)
  append_text room.text named (codes ">")

unfoldable pub format_tuple :
    Capacities → TypeArena → TypeNode → Bytes → List FormatAction → Option Formatting
unfolding append_text push_action push_elements
format_tuple room type node formatted stack = do
  opened ← append_text room.text formatted (codes "Tuple<")
  closing ← push_action room.stack (text_action (codes ">")) stack
  pushed ← push_elements room.stack type node.first_child node.child_count closing
  some (record { formatted = opened; stack = pushed })

-- What becomes of the text under an action that pushes nothing.
abbrev pub with_stack : List FormatAction → Option Bytes → Option Formatting
with_stack stack written = do text ← written; some (record { formatted = text; stack = stack })

-- The body of the loop, on the action popped from the stack.
unfoldable pub format_action :
    Capacities → TypeArena → FormatAction → Bytes → List FormatAction → Option Formatting
unfolding format_scalar format_vector format_tuple append_text
format_action room type (text_action text) formatted stack =
    with_stack stack (append_text room.text formatted text)
format_action room type (node_action i) formatted stack = elim (node_at type i).kind [
  | scalar ↦ with_stack stack (format_scalar room (node_at type i) formatted)
  | vector ↦ with_stack stack (format_vector room (node_at type i) formatted)
  | tuple ↦ format_tuple room type (node_at type i) formatted stack
]

-- The loop on the stack; nothing if the fuel does not suffice.
unfoldable pub format_actions :
    Capacities → TypeArena → ℕ → Bytes → List FormatAction → Option TypeFormattingResult
unfolding format_action formatted_type out_of_resources
format_actions room type fuel formatted [] = some (formatted_type formatted)
format_actions room type zero formatted (action ∷ stack) = none
format_actions room type (suc fuel) formatted (action ∷ stack) =
    let go = λ (f : Formatting). format_actions room type fuel f.formatted f.stack in
    elim (format_action room type action formatted stack) [
      | none ↦ some (out_of_resources size_overflow)
      | some f ↦ go f
    ]

abbrev pub format_capacities : TypeArena → Capacities
format_capacities type = record {
  text = length (type_nodes type) * 16 + length type.child_indexes * 2;
  stack = length (type_nodes type) + length type.child_indexes * 2 + 1;
}

-- The tests that the two capacities fit in a `std::size_t`.
unfoldable pub capacities_overflow : TypeArena → Bool
capacities_overflow type =
    let nodes = length (type_nodes type) in
    let edges = length type.child_indexes in
    ltb (size_max / 16) nodes
    || ltb ((size_max - nodes * 16) / 2) edges
    || ltb ((size_max - nodes - 1) / 2) edges

-- What follows the validation: the loop begins with the root, and has fuel for every place of its stack.
unfoldable pub format_accepted : HostAnswers → TypeArena → Option TypeFormattingResult
unfolding format_actions request first_failure capacities_overflow
format_accepted host type =
    let room = format_capacities type in
    if capacities_overflow type
    then some (out_of_resources size_overflow)
    else elim (first_failure (request host 0 room.text) (request host 1 room.stack)) [
      | no_failure ↦
          if ltb 0 room.stack
          then format_actions room type room.stack [] (node_action type.root_index ∷ [])
          else some (out_of_resources size_overflow)
      | size_overflow ↦ some (out_of_resources size_overflow)
      | allocation_unavailable ↦ some (out_of_resources allocation_unavailable)
    ]

unfoldable pub refused_format : TypeValidationResult → TypeFormattingResult
unfolding type_formatting_failure
refused_format validation = elim validation.resource_error [
  | no_failure ↦ type_formatting_failure validation.invariant invalid_type_error no_failure
  | size_overflow ↦ out_of_resources size_overflow
  | allocation_unavailable ↦ out_of_resources allocation_unavailable
]

unfoldable pub format_type : HostAnswers → TypeArena → Option TypeFormattingResult
unfolding validate_type format_accepted validation_requests refused_format
format_type host type = do
  validation ← validate_type host type
  if not validation.ok
      then some (refused_format validation)
      else format_accepted (later host (validation_requests type)) type
