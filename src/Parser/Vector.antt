-- ===== src/Parser/Vector.antt =====
-- `parse_vector_literal` of src/rewrite.cpp.
use bennu.Prelude.{
  ℕ, ◌+◌, Bool, true, false, not, List, [], ◌∷◌, length, if◌then◌else◌, ◌==◌, nat_eq,
}
use bennu.Scalar.Types.{ScalarType, boolean, integer, double_precision, scalar_type_eq}
use bennu.Tokenizer.Types.{RewritePosition, RewriteToken, right_bracket, right_parenthesis, invalid}
use bennu.Parser.Types.{
  RewriteProgram, RewriteParseResult, is_kind, is_blank, is_scalar_token, scalar_token_type, push,
  plain_node, vector_literal, refused, push_node, RewriteParseError, missing_delimiter,
  bare_empty_vector, mismatched_delimiter, invalid_vector_element, heterogeneous_vector,
  invalid_byte, missing_separator, insertion_span,
}
use bennu.Parser.Spans.{span_to, delimited_context_span, skip_blanks, token_failure}

-- An expression that is read in full, with its node and the tokens after it, or the end of the
-- parse.
pub data Parsed : Type 0 where
  completed : RewriteProgram → ℕ → List RewriteToken → Parsed
  refusal : RewriteParseResult → Parsed

unfoldable pub append_vector_element : RewriteProgram → RewriteToken → ScalarType → RewriteProgram
append_vector_element program token type =
    let spanned = record program {
      vector_element_spans = push program.vector_element_spans token.span;
    } in
    elim type [
      | boolean ↦ record spanned { boolean_elements = push program.boolean_elements token.boolean }
      | integer ↦ record spanned { integer_elements = push program.integer_elements token.integer }
      | double_precision ↦ record spanned {
        double_elements = push program.double_elements token.double_bits;
      }
    ]

unfoldable pub vector_payload_size : RewriteProgram → ScalarType → ℕ
vector_payload_size program boolean = length program.boolean_elements
vector_payload_size program integer = length program.integer_elements
vector_payload_size program double_precision = length program.double_elements

-- A literal that is being read: its opening, the tokens after that, and where its elements begin.
pub record VectorLiteral : Type 0 where
  pub opening : RewriteToken
  pub tokens : List RewriteToken
  pub end : RewritePosition
  pub element_type : ScalarType
  pub first_element : ℕ
  pub first_element_span : ℕ

abbrev pub vector_completed :
    RewriteProgram → VectorLiteral → ℕ → RewriteToken → List RewriteToken → Parsed
vector_completed program literal count closing rest =
    let span = span_to literal.opening.span.begin closing.span.end in
    let pushed = push_node program (record (plain_node vector_literal span literal.element_type) {
      first_element = literal.first_element;
      element_count = count;
      first_element_span = literal.first_element_span;
    }) in
    completed pushed.0 pushed.1 rest

unfoldable pub vector_unclosed : RewriteProgram → RewriteToken → RewritePosition → Parsed
unfolding insertion_span
vector_unclosed program opening end = refusal (
    refused program missing_delimiter (insertion_span end) (span_to opening.span.begin end)
      opening.span)

unfoldable pub vector_mismatch : RewriteProgram → RewriteToken → RewriteToken → Parsed
vector_mismatch program opening t = refusal (
    refused program mismatched_delimiter t.span (span_to opening.span.begin t.span.end)
      opening.span)

unfoldable pub vector_refusal :
    RewriteProgram
    → RewriteToken
    → List RewriteToken
    → RewritePosition
    → RewriteParseError
    → RewriteToken
    → Parsed
unfolding delimited_context_span
vector_refusal program opening tokens end error t = refusal (
    refused program error t.span (delimited_context_span opening tokens right_parenthesis end)
      opening.span)

-- The loop over the elements: whether a separator stands before the token, and the count so far.
unfoldable pub vector_loop : VectorLiteral → Bool → ℕ → RewriteProgram → List RewriteToken → Parsed
unfolding vector_unclosed vector_mismatch vector_refusal is_kind is_blank is_scalar_token
    scalar_token_type token_failure append_vector_element
vector_loop literal separated count program [] = vector_unclosed program literal.opening literal.end
vector_loop literal separated count program (t ∷ rest) =
    let refuse : RewriteParseError → Parsed =
      λ error. vector_refusal program literal.opening literal.tokens literal.end error t in
    let appended = append_vector_element program t literal.element_type in
    let after_blank = vector_loop literal true count program rest in
    let after_element = vector_loop literal false (count + 1) appended rest in
    if is_kind t right_parenthesis
    then vector_completed program literal count t rest
    else if is_kind t right_bracket
    then vector_mismatch program literal.opening t
    else if is_blank t
    then after_blank
    else if not separated
    then refuse (if is_kind t invalid then invalid_byte else missing_separator)
    else if not (is_scalar_token t)
    then refuse (token_failure t invalid_vector_element)
    else if not (scalar_token_type t.kind == literal.element_type)
    then refuse heterogeneous_vector
    else after_element

-- The checks on the first token after the opening.
unfoldable pub first_element :
    RewriteToken → List RewriteToken → RewritePosition → RewriteProgram → List RewriteToken → Parsed
unfolding vector_unclosed vector_mismatch vector_refusal vector_loop vector_payload_size is_kind
    is_scalar_token scalar_token_type token_failure
first_element opening tokens end program [] = vector_unclosed program opening end
first_element opening tokens end program (t ∷ rest) =
    let complete = span_to opening.span.begin t.span.end in
    let type = scalar_token_type t.kind in
    if is_kind t right_parenthesis
    then refusal (refused program bare_empty_vector complete complete opening.span)
    else if is_kind t right_bracket
    then vector_mismatch program opening t
    else if not (is_scalar_token t)
    then vector_refusal program opening tokens end (token_failure t invalid_vector_element) t
    else vector_loop
        (record {
          opening = opening;
          tokens = tokens;
          end = end;
          element_type = type;
          first_element = vector_payload_size program type;
          first_element_span = length program.vector_element_spans;
        })
        true 0 program (t ∷ rest)

unfoldable pub parse_vector_literal :
    RewriteToken → List RewriteToken → RewritePosition → RewriteProgram → Parsed
unfolding first_element skip_blanks
parse_vector_literal opening tokens end program =
    first_element opening tokens end program (skip_blanks tokens)
