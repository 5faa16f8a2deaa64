-- ===== src/Parser/Atoms.antt =====
-- The loop body of `parse_rewrite` of src/rewrite.cpp from where it reads the token that begins an
-- expression.
use bennu.Prelude.{
  ℕ, Bool, true, false, not, ◌&&◌, ◌||◌, List, [], ◌∷◌, Option, none, some, codes, length,
  if◌then◌else◌, ◌==◌, nat_eq, bytes_eq,
}
use bennu.Scalar.Types.{ScalarType, boolean}
use bennu.Tokenizer.Types.{
  RewritePosition, RewriteSpan, RewriteToken, name, left_bracket, right_bracket, left_parenthesis,
  right_parenthesis, placeholder, horizontal_space, line_terminator,
}
use bennu.Parser.Types.{
  RewriteProgram, RewriteContext, RewriteContextKind, RewriteParameterDeclaration, bracket_call,
  tuple_context, prefix_call, fanout_context, fanout_branch, RewriteNode, parameter_reference,
  unresolved_name, vector_literal, placeholder_node, node_at, push_node, plain_node, scalar_node,
  is_kind, is_scalar_token, refused, parameter_refused, insertion_span, second_parameter_header,
  parameter_header_after_root, trailing_input, invalid_vector_element, nested_fanout,
  expected_fanout_open, expected_expression, unexpected_fanout_token, mismatched_delimiter,
  invalid_byte, RewriteParseError,
}
use bennu.Parser.Spans.{
  span_to, skip_blanks, rewrite_token_spelling, token_starts_expression, token_failure,
  parameter_type,
}
use bennu.Parser.Vector.{completed, refusal, parse_vector_literal, vector_payload_size}
use bennu.Parser.Header.{find_parameter}
use bennu.Parser.Finish.{ParseState, Next, go_on, ended}

-- An expression that is one node of its own.
abbrev pub complete_with : ParseState → RewriteProgram → ℕ → List RewriteToken → Next
complete_with s program node rest =
    go_on (record s { tokens = rest; program = program; completed = some node })

abbrev pub complete_node : ParseState → RewriteNode → List RewriteToken → Next
complete_node s node rest =
    let pushed = push_node s.program node in complete_with s pushed.0 pushed.1 rest

abbrev pub opened :
    RewriteContextKind
    → RewriteSpan
    → RewriteSpan
    → RewriteSpan
    → List RewriteToken
    → RewriteContext
opened kind name_span opening_span separator_span opening_tokens = record {
  kind = kind;
  name_span = name_span;
  opening_span = opening_span;
  separator_span = separator_span;
  pending = [];
  opening_tokens = opening_tokens;
  after_argument = false;
}

abbrev pub open_context : ParseState → RewriteContext → List RewriteToken → Next
open_context s context rest = go_on (record s { tokens = rest; contexts = context ∷ s.contexts })

abbrev pub fail_at : ParseState → RewriteParseError → RewriteToken → Next
fail_at s error t = ended (refused s.program error t.span t.span t.span)

abbrev pub in_fanout : RewriteContextKind → Bool
in_fanout fanout_context = true
in_fanout fanout_branch = true
in_fanout _ = false

unfoldable pub nested : List RewriteContext → Bool
nested [] = false
nested (c ∷ contexts) = in_fanout c.kind || nested contexts

-- The word `fanout`, with the tokens after it.
unfoldable pub open_fanout : RewritePosition → ParseState → RewriteToken → List RewriteToken → Next
unfolding nested is_kind insertion_span
open_fanout end s t rest = if nested s.contexts then fail_at s nested_fanout t else elim rest [
  | [] ↦ ended (refused s.program expected_fanout_open (insertion_span end) t.span t.span)
  | opening ∷ tokens ↦
      if is_kind opening left_bracket
      then open_context s
          (opened fanout_context t.span opening.span (insertion_span opening.span.end)
            (opening ∷ tokens))
          tokens
      else ended (refused s.program expected_fanout_open opening.span t.span t.span)
]

abbrev pub is_bracket : RewriteContextKind → Bool
is_bracket bracket_call = true
is_bracket tuple_context = true
is_bracket _ = false

unfoldable pub inside_bracket : List RewriteContext → Bool
inside_bracket [] = false
inside_bracket (c ∷ contexts) = is_bracket c.kind

abbrev pub is_empty_contexts : List RewriteContext → Bool
is_empty_contexts [] = true
is_empty_contexts (c ∷ contexts) = false

-- A name and the horizontal space after it, with the tokens behind both.
unfoldable pub open_prefix :
    RewritePosition → ParseState → RewriteToken → RewriteToken → List RewriteToken → Next
unfolding is_kind insertion_span
open_prefix end s t separator rest =
    let refuse : RewriteSpan → Next = λ primary. ended (
      refused s.program expected_expression primary (span_to t.span.begin primary.end)
        separator.span) in
    elim rest [
      | [] ↦ refuse (insertion_span end)
      | next ∷ tokens ↦
          if is_kind next line_terminator
          then refuse next.span
          else open_context s
              (opened prefix_call t.span (insertion_span separator.span.begin) separator.span [])
              (next ∷ tokens)
    ]

-- A name that is no declared parameter here: a call, or a name to be resolved.
unfoldable pub open_call : RewritePosition → ParseState → RewriteToken → List RewriteToken → Next
unfolding is_kind insertion_span skip_blanks open_prefix
open_call end s t [] = complete_node s (plain_node unresolved_name t.span boolean) []
open_call end s t (next ∷ rest) =
    if is_kind next left_bracket
    then open_context s
        (opened bracket_call t.span next.span (insertion_span next.span.end) (next ∷ rest))
        (skip_blanks rest)
    else if is_kind next horizontal_space
    then open_prefix end s t next rest
    else complete_node s (plain_node unresolved_name t.span boolean) (next ∷ rest)

unfoldable pub parameter_reference_node :
    RewriteParameterDeclaration → ℕ → RewriteSpan → RewriteNode
parameter_reference_node declaration parameter_index reference_span =
    record (plain_node parameter_reference reference_span declaration.type) {
      first_element = parameter_index;
      declaration_name_span = some declaration.name_span;
    }

abbrev pub next_is : List RewriteToken → (RewriteToken → Bool) → Bool
next_is [] test = false
next_is (t ∷ tokens) test = test t

unfoldable pub parse_name : RewritePosition → ParseState → RewriteToken → List RewriteToken → Next
unfolding rewrite_token_spelling open_fanout find_parameter inside_bracket is_kind
    parameter_reference_node open_call
parse_name end s t rest =
    let spelling = rewrite_token_spelling s.program.source t in
    let adjacent_bracket = next_is rest (λ next. is_kind next left_bracket) in
    let root_prefix =
      is_empty_contexts s.contexts && next_is rest (λ next. is_kind next horizontal_space) in
    if spelling == codes "fanout"
    then open_fanout end s t rest
    else elim (find_parameter s.program spelling) [
      | none ↦ open_call end s t rest
      | some (declaration, index) ↦
          if not adjacent_bracket && (inside_bracket s.contexts || not root_prefix)
          then complete_node s (parameter_reference_node declaration index t.span) rest
          else open_call end s t rest
    ]

abbrev pub first_pending : List ℕ → Option ℕ
first_pending [] = none
first_pending (node ∷ nodes) = some node

-- The operand of the innermost fanout.
unfoldable pub fanout_operand : List RewriteContext → Option ℕ
fanout_operand [] = none
fanout_operand (c ∷ contexts) = elim c.kind [
  | fanout_context ↦ first_pending c.pending
  | _ ↦ fanout_operand contexts
]

unfoldable pub parse_placeholder : ParseState → RewriteToken → List RewriteToken → Next
unfolding fanout_operand
parse_placeholder s t rest = elim (fanout_operand s.contexts) [
  | none ↦ fail_at s unexpected_fanout_token t
  | some operand ↦
      complete_node s
        (record (plain_node placeholder_node t.span boolean) { first_element = operand }) rest
]

-- A type's name, which begins an empty vector only.
unfoldable pub parse_empty_vector :
    ParseState → RewriteToken → ScalarType → List RewriteToken → Next
unfolding is_kind vector_payload_size
parse_empty_vector s t type (opening ∷ closing ∷ rest) =
    if is_kind opening left_parenthesis && is_kind closing right_parenthesis
    then complete_node s
        (record (plain_node vector_literal (span_to t.span.begin closing.span.end) type) {
          first_element = vector_payload_size s.program type;
          first_element_span = length s.program.vector_element_spans;
        })
        rest
    else fail_at s invalid_vector_element t
parse_empty_vector s t type _ = fail_at s invalid_vector_element t

unfoldable pub parse_vector : RewritePosition → ParseState → RewriteToken → List RewriteToken → Next
unfolding parse_vector_literal
parse_vector end s t rest = elim (parse_vector_literal t rest end s.program) [
  | completed program node tokens ↦ complete_with s program node tokens
  | refusal result ↦ ended result
]

-- The roots are not empty where the source reads the first of them.
unfoldable pub refuse_header : ParseState → RewriteToken → Next
unfolding node_at
refuse_header s t =
    let header = s.program.parameter_header in
    let related : RewriteSpan = if header.present then header.span else elim s.program.roots [
      | [] ↦ header.span
      | root ∷ roots ↦ (node_at s.program root).span
    ] in
    ended (
      parameter_refused s.program
        (if header.present then second_parameter_header else parameter_header_after_root)
        trailing_input t.span t.span related)

-- A token that begins no expression.
unfoldable pub refuse_token : ParseState → RewriteToken → Next
unfolding token_failure is_kind token_starts_expression
refuse_token s t =
    fail_at s
      (token_failure t (
        if is_kind t right_bracket || is_kind t right_parenthesis
        then mismatched_delimiter
        else if token_starts_expression t
        then expected_expression
        else invalid_byte))
      t

unfoldable pub parse_token : RewritePosition → ParseState → RewriteToken → List RewriteToken → Next
unfolding is_kind is_scalar_token scalar_node rewrite_token_spelling refuse_header insertion_span
    skip_blanks parse_vector parameter_type parse_empty_vector parse_name parse_placeholder
    refuse_token
parse_token end s t rest =
    if is_empty_contexts s.contexts
      && (is_kind t name && (rewrite_token_spelling s.program.source t == codes "parameters"))
    then refuse_header s t
    else if is_scalar_token t
    then complete_node s (scalar_node t) rest
    else if is_kind t left_bracket
    then open_context s (opened tuple_context t.span t.span (insertion_span t.span.end) (t ∷ rest))
        (skip_blanks rest)
    else if is_kind t left_parenthesis
    then parse_vector end s t rest
    else elim (parameter_type t.kind) [
      | some type ↦ parse_empty_vector s t type rest
      | none ↦
          if is_kind t name
          then parse_name end s t rest
          else if is_kind t placeholder
          then parse_placeholder s t rest
          else refuse_token s t
    ]
