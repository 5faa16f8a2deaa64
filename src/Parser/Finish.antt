-- ===== src/Parser/Finish.antt =====
-- The ends of calls, tuples and fanouts: `append_pending_argument` to `finish_fanout` of
-- src/rewrite.cpp.
use bennu.Prelude.{
  ℕ, zero, suc, ◌+◌, ◌-◌, Bool, true, false, not, ◌||◌, List, [], ◌∷◌, ◌++◌, Option, none, some,
  map, length, get_elem?, if◌then◌else◌, ◌==◌, nat_eq,
}
use bennu.Scalar.Types.{boolean}
use bennu.Tokenizer.Types.{RewriteSpan, RewriteToken}
use bennu.Parser.Types.{
  RewriteProgram, RewriteParseResult, RewriteContext, RewriteContextKind, RewriteCallSyntax,
  bracket_call, tuple_context, bracketed, prefix, RewriteNodeKind, primitive_call, tuple_literal,
  placeholder_node, fanout_node, node_at, push, push_node, plain_node, refused, insertion_span,
  expected_branch_body, branch_root_not_primitive_call, placeholder_count,
  placeholder_owned_position, RewriteParseError,
}
use bennu.Parser.Spans.{span_to}

-- Where the parser is: the tokens left, the open contexts, innermost first, the program so far, and
-- the node of an expression that was just completed (`completed_node`, if `have_expression`).
pub record ParseState : Type 0 where
  pub tokens : List RewriteToken
  pub contexts : List RewriteContext
  pub program : RewriteProgram
  pub completed : Option ℕ

pub data Next : Type 0 where
  go_on : ParseState → Next
  ended : RewriteParseResult → Next

unfoldable pub append_pending_argument : RewriteContext → ℕ → RewriteContext
append_pending_argument context node = record context { pending = push context.pending node }

abbrev pub spans_of : RewriteProgram → List ℕ → List RewriteSpan
spans_of program = map (λ node. (node_at program node).span)

abbrev pub call_syntax : RewriteContextKind → RewriteCallSyntax
call_syntax bracket_call = bracketed
call_syntax _ = prefix

unfoldable pub finish_call :
    RewriteProgram → RewriteContext → RewriteSpan → RewriteSpan → RewriteProgram × ℕ
unfolding node_at
finish_call program context closing_span complete_span =
    push_node
      (record program {
        arguments = program.arguments ++ context.pending;
        argument_spans = program.argument_spans ++ spans_of program context.pending;
        calls = push program.calls (record {
          syntax = call_syntax context.kind;
          name_span = context.name_span;
          opening_delimiter_span = context.opening_span;
          closing_delimiter_span = closing_span;
          prefix_separator_span = context.separator_span;
          span = complete_span;
          first_argument = length program.arguments;
          argument_count = length context.pending;
          primitive = none;
        });
      })
      (record (plain_node primitive_call complete_span boolean) {
        call_index = length program.calls;
      })

unfoldable pub finish_tuple : RewriteProgram → RewriteContext → RewriteSpan → RewriteProgram × ℕ
unfolding node_at
finish_tuple program context closing_span =
    push_node
      (record program {
        tuple_elements = program.tuple_elements ++ context.pending;
        tuple_element_spans = program.tuple_element_spans ++ spans_of program context.pending;
      })
      (record (plain_node tuple_literal (span_to context.opening_span.begin closing_span.end)
        boolean) {
          first_element = length program.tuple_elements;
          element_count = length context.pending;
          first_element_span = length program.tuple_element_spans;
        })

unfoldable pub finish_delimited : RewriteProgram → RewriteContext → RewriteSpan → RewriteProgram × ℕ
unfolding finish_call finish_tuple
finish_delimited program context closing_span = elim context.kind [
  | tuple_context ↦ finish_tuple program context closing_span
  | _ ↦ finish_call program context closing_span (span_to context.name_span.begin closing_span.end)
]

-- As many elements from a place on.
unfoldable pub slice {ℓ} : {A : Type ℓ} → List A → ℕ → ℕ → List A
slice [] first count = []
slice (x ∷ xs) first zero = []
slice (x ∷ xs) zero (suc count) = x ∷ slice xs zero count
slice (x ∷ xs) (suc first) (suc count) = slice xs first (suc count)

-- What the walk over a branch has found: the placeholders and the first of them, and whether one
-- stands inside a tuple.
pub record Inspection : Type 0 where
  pub count : ℕ
  pub first_span : Option RewriteSpan
  pub has_owned_position : Bool

abbrev pub first_or : Option RewriteSpan → RewriteSpan → RewriteSpan
first_or none span = span
first_or (some first) span = first

unfoldable pub inspect_each : (ℕ → Inspection → Inspection) → List ℕ → Inspection → Inspection
inspect_each inspect [] found = found
inspect_each inspect (node ∷ nodes) found = inspect_each inspect nodes (inspect node found)

unfoldable pub call_arguments : RewriteProgram → ℕ → List ℕ
unfolding slice
call_arguments program index = elim (get_elem? program.calls index) [
  | none ↦ []
  | some call ↦ slice program.arguments call.first_argument call.argument_count
]

-- The recursion goes to nodes that stand before the node, so the number of nodes is enough fuel.
unfoldable pub inspect_branch_placeholder : ℕ → RewriteProgram → Bool → ℕ → Inspection → Inspection
unfolding inspect_each call_arguments slice node_at
inspect_branch_placeholder zero program owned index found = found
inspect_branch_placeholder (suc fuel) program owned index found =
    let node = node_at program index in
    elim node.kind [
      | placeholder_node ↦ record {
        count = found.count + 1;
        first_span = some (first_or found.first_span node.span);
        has_owned_position = found.has_owned_position || owned;
      }
      | primitive_call ↦
          inspect_each (inspect_branch_placeholder fuel program owned)
            (call_arguments program node.call_index) found
      | tuple_literal ↦
          inspect_each (inspect_branch_placeholder fuel program true)
            (slice program.tuple_elements node.first_element node.element_count) found
      | _ ↦ found
    ]

abbrev pub is_call : RewriteNodeKind → Bool
is_call primitive_call = true
is_call _ = false

-- The argument goes to the innermost context, which then waits for a separator.
unfoldable pub give_argument : List RewriteContext → ℕ → List RewriteContext
unfolding append_pending_argument
give_argument [] node = []
give_argument (context ∷ contexts) node =
    record (append_pending_argument context node) { after_argument = true } ∷ contexts

-- A branch with a body: its root is the first node that waits.
unfoldable pub finish_branch_root :
    ParseState → List RewriteContext → RewriteContext → ℕ → RewriteSpan → Next
unfolding inspect_branch_placeholder node_at give_argument
finish_branch_root s outer branch root closing_span =
    let program = s.program in
    let complete = span_to branch.opening_span.begin closing_span.end in
    let node = node_at program root in
    let found =
      inspect_branch_placeholder (length program.nodes) program false root
        (record { count = 0; first_span = none; has_owned_position = false }) in
    let first_span = first_or found.first_span node.span in
    let refuse : RewriteParseError → RewriteSpan → Next =
      λ error primary. ended (refused program error primary complete branch.opening_span) in
    if not (is_call node.kind)
    then refuse branch_root_not_primitive_call node.span
    else if not (found.count == 1)
    then refuse placeholder_count first_span
    else if found.has_owned_position
    then refuse placeholder_owned_position first_span
    else go_on (record s {
      contexts = give_argument outer root;
      program = record program {
        fanout_branches = push program.fanout_branches (record {
          span = complete;
          opening_span = branch.opening_span;
          closing_span = closing_span;
          body_span = node.span;
          placeholder_span = first_span;
          root = root;
        });
      };
    })

unfoldable pub finish_fanout_branch :
    ParseState → List RewriteContext → RewriteContext → RewriteSpan → Next
unfolding finish_branch_root insertion_span
finish_fanout_branch s outer branch closing_span = elim branch.pending [
  | [] ↦ ended (
      refused s.program expected_branch_body (insertion_span closing_span.begin)
        (span_to branch.opening_span.begin closing_span.end) branch.opening_span)
  | root ∷ others ↦ finish_branch_root s outer branch root closing_span
]

-- The operand is the first node that waits; a fanout that is finished has one.
unfoldable pub finish_fanout : RewriteProgram → RewriteContext → RewriteSpan → RewriteProgram × ℕ
unfolding node_at
finish_fanout program context closing_span =
    let operand : ℕ = elim context.pending [ [] ↦ 0 | node ∷ nodes ↦ node ] in
    let branch_count = length context.pending - 1 in
    let first_branch = length program.fanout_branches - branch_count in
    let complete = span_to context.name_span.begin closing_span.end in
    push_node
      (record program {
        fanouts = push program.fanouts (record {
          keyword_span = context.name_span;
          opening_span = context.opening_span;
          closing_span = closing_span;
          span = complete;
          operand_span = (node_at program operand).span;
          operand = operand;
          first_branch = first_branch;
          branch_count = branch_count;
        });
      })
      (record (plain_node fanout_node complete boolean) {
        first_element = first_branch;
        element_count = branch_count;
        call_index = length program.fanouts;
      })
