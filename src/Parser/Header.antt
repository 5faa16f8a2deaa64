-- ===== src/Parser/Header.antt =====
-- `parse_parameter_header` and `find_parameter` of src/rewrite.cpp.
use bennu.Prelude.{
  ℕ, ◌+◌, true, not, ◌||◌, List, [], ◌∷◌, Option, none, some, Bytes, codes, if◌then◌else◌, ◌==◌,
  nat_eq, bytes_eq,
}
use bennu.Scalar.Types.{ScalarType}
use bennu.Tokenizer.Types.{
  RewritePosition, RewriteSpan, RewriteToken, name, left_bracket, right_bracket, horizontal_space,
  line_terminator,
}
use bennu.Parser.Types.{
  RewriteProgram, RewriteParseResult, RewriteParameterHeader, RewriteParameterDeclaration, is_kind,
  is_blank, push, parameter_refused, ParameterErrorReason, expected_header_open,
  expected_parameter_name, expected_parameter_type, unexpected_header_token, missing_header_close,
  trailing_header_bytes, expected_expression, missing_delimiter, trailing_input, insertion_span,
}
use bennu.Parser.Spans.{
  span_to, skip_blanks, rewrite_token_spelling, parameter_type, parameter_name_spelling,
}

-- The header is read, or absent, with the tokens after it; or the parse ends.
pub data HeaderParsed : Type 0 where
  header_read : RewriteProgram → List RewriteToken → HeaderParsed
  header_refusal : RewriteParseResult → HeaderParsed

abbrev pub header_failure :
    RewriteProgram → ParameterErrorReason → RewriteSpan → RewriteSpan → RewriteSpan → HeaderParsed
header_failure program reason primary context related =
    header_refusal (parameter_refused program reason expected_expression primary context related)

abbrev pub with_header :
    RewriteProgram → (RewriteParameterHeader → RewriteParameterHeader) → RewriteProgram
with_header program change = record program { parameter_header = change program.parameter_header }

unfoldable pub declare_parameter :
    RewriteProgram → RewriteToken → RewriteToken → ScalarType → RewriteProgram
unfolding rewrite_token_spelling
declare_parameter program label type scalar_type = with_header program (λ header. record header {
  declarations = push header.declarations (record {
    name = rewrite_token_spelling program.source label;
    type = scalar_type;
    span = span_to label.span.begin type.span.end;
    name_span = label.span;
    type_span = type.span;
  });
})

-- After the closing bracket: horizontal space and the end of the line.
unfoldable pub finish_header : RewriteProgram → List RewriteToken → HeaderParsed
unfolding is_kind
finish_header program [] = header_read program []
finish_header program (t ∷ rest) =
    let next = finish_header program rest in
    let span = program.parameter_header.span in
    if is_kind t horizontal_space
    then next
    else if is_kind t line_terminator
    then header_read program rest
    else header_refusal
        (parameter_refused program trailing_header_bytes trailing_input t.span span span)

abbrev pub close_header : RewriteProgram → RewriteToken → RewriteToken → RewriteProgram
close_header program keyword closing = with_header program (λ header. record header {
  closing_span = closing.span;
  span = span_to keyword.span.begin closing.span.end;
})

-- What the loop over the declarations waits for: a name, the end of a name, a type, or the end of a
-- type.
pub data Expected : Type 0 where
  a_name : Expected
  after_name a_type : RewriteToken → Expected
  after_type : RewriteToken → Expected

-- The end of the text where a declaration is not complete.
unfoldable pub header_unclosed :
    RewriteProgram → RewriteToken → RewritePosition → Expected → HeaderParsed
unfolding insertion_span
header_unclosed program keyword end expected =
    let at_end = insertion_span end in
    let missing = header_refusal (
      parameter_refused program missing_header_close missing_delimiter at_end
        (span_to keyword.span.begin end) program.parameter_header.opening_span) in
    elim expected [
      | after_name label ↦
          header_failure program expected_parameter_type at_end label.span label.span
      | a_type label ↦ header_failure program expected_parameter_type at_end label.span label.span
      | _ ↦ missing
    ]

unfoldable pub header_loop :
    RewriteToken → RewritePosition → RewriteProgram → Expected → List RewriteToken → HeaderParsed
unfolding header_unclosed finish_header is_kind is_blank parameter_name_spelling
    rewrite_token_spelling parameter_type declare_parameter insertion_span
header_loop keyword end program expected [] = header_unclosed program keyword end expected
header_loop keyword end program a_name (t ∷ rest) =
    let named = header_loop keyword end program (after_name t) rest in
    let blank = header_loop keyword end program a_name rest in
    if is_blank t
    then blank
    else if is_kind t right_bracket
    then finish_header (close_header program keyword t) rest
    else if parameter_name_spelling (rewrite_token_spelling program.source t)
    then named
    else header_failure program
        (elim (parameter_type t.kind) [
          | none ↦ unexpected_header_token
          | some type ↦ expected_parameter_name
        ])
        t.span (span_to keyword.span.begin t.span.end) program.parameter_header.opening_span
header_loop keyword end program (after_name label) (t ∷ rest) =
    let blank = header_loop keyword end program (a_type label) rest in
    if is_blank t
    then blank
    else if is_kind t right_bracket
    then header_failure program expected_parameter_type (insertion_span t.span.begin) label.span
        label.span
    else header_failure program unexpected_header_token t.span label.span label.span
header_loop keyword end program (a_type label) (t ∷ rest) =
    let blank = header_loop keyword end program (a_type label) rest in
    let typed : ScalarType → HeaderParsed = λ type.
      header_loop keyword end (declare_parameter program label t type) (after_type t) rest in
    if is_blank t then blank else elim (parameter_type t.kind) [
      | some type ↦ typed type
      | none ↦
          if is_kind t right_bracket
          then header_failure program expected_parameter_type (insertion_span t.span.begin)
              label.span label.span
          else header_failure program unexpected_header_token t.span label.span label.span
    ]
header_loop keyword end program (after_type type) (t ∷ rest) =
    let blank = header_loop keyword end program a_name rest in
    if is_blank t
    then blank
    else if is_kind t right_bracket
    then finish_header (close_header program keyword t) rest
    else header_failure program unexpected_header_token t.span
        (span_to keyword.span.begin t.span.end) type.span

unfoldable pub header_opening :
    RewriteToken → RewritePosition → RewriteProgram → List RewriteToken → HeaderParsed
unfolding header_loop is_kind insertion_span
header_opening keyword end program [] =
    header_failure program expected_header_open (insertion_span end) keyword.span keyword.span
header_opening keyword end program (t ∷ rest) =
    if is_kind t left_bracket
    then header_loop keyword end
        (with_header program (λ header. record header {
          present = true;
          keyword_span = keyword.span;
          opening_span = t.span;
        }))
        a_name rest
    else header_failure program expected_header_open t.span keyword.span keyword.span

-- Without a header the tokens are those from before the blanks.
unfoldable pub header_from :
    RewritePosition → RewriteProgram → List RewriteToken → List RewriteToken → HeaderParsed
unfolding header_opening is_kind rewrite_token_spelling
header_from end program tokens [] = header_read program tokens
header_from end program tokens (t ∷ rest) =
    if not (is_kind t name) || not (rewrite_token_spelling program.source t == codes "parameters")
    then header_read program tokens
    else header_opening t end program rest

unfoldable pub parse_parameter_header :
    RewritePosition → RewriteProgram → List RewriteToken → HeaderParsed
unfolding header_from skip_blanks
parse_parameter_header end program tokens = header_from end program tokens (skip_blanks tokens)

-- The first declaration of the name, with its index.
unfoldable pub find_declaration :
    List RewriteParameterDeclaration → Bytes → ℕ → Option (RewriteParameterDeclaration × ℕ)
find_declaration [] spelling index = none
find_declaration (d ∷ declarations) spelling index =
    if d.name == spelling
    then some (d, index)
    else find_declaration declarations spelling (index + 1)

unfoldable pub find_parameter : RewriteProgram → Bytes → Option (RewriteParameterDeclaration × ℕ)
unfolding find_declaration
find_parameter program spelling = find_declaration program.parameter_header.declarations spelling 0
