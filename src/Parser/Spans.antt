-- ===== src/Parser/Spans.antt =====
-- The spans that the diagnostics of src/rewrite.cpp give as context, and the tests on tokens.
use bennu.Prelude.{
  not, ℕ, zero, suc, ◌-◌, Bool, true, false, ◌&&◌, ◌||◌, List, [], ◌∷◌, Option, none, some, Bytes,
  if◌then◌else◌, ◌==◌, nat_eq,
}
use bennu.Scalar.Types.{ScalarType, boolean, integer, double_precision}
use bennu.Tokenizer.Types.{
  RewritePosition, RewriteSpan, RewriteTokenKind, RewriteToken, RewriteLiteralError, range, name,
  bool_type, int_type, double_type, left_bracket, right_bracket, left_parenthesis,
  malformed_literal, invalid, is_lowercase, is_name_byte,
}
use bennu.Parser.Types.{
  RewriteContext, tuple_context, is_kind, is_blank, is_scalar_token, RewriteParseError,
  malformed_literal_error, literal_range, invalid_byte,
}

abbrev pub span_to : RewritePosition → RewritePosition → RewriteSpan
span_to begin end = record { begin = begin; end = end }

-- The loop of both: the end of the token that closes the first delimiter, or the end of the text.
unfoldable pub matching_end :
    RewriteTokenKind → RewriteTokenKind → ℕ → List RewriteToken → RewritePosition → RewritePosition
unfolding is_kind
matching_end opening closing depth [] end = end
matching_end opening closing depth (t ∷ tokens) end =
    let deeper = is_kind t opening in
    let closes = is_kind t closing in
    let depth' = if deeper then suc depth else if closes then depth - 1 else depth in
    let rest = matching_end opening closing depth' tokens end in
    if not deeper && (closes && depth == 1) then t.span.end else rest

unfoldable pub delimited_context_span :
    RewriteToken → List RewriteToken → RewriteTokenKind → RewritePosition → RewriteSpan
unfolding matching_end
delimited_context_span opening tokens closing end =
    span_to opening.span.begin (matching_end opening.kind closing 1 tokens end)

unfoldable pub bracket_call_context_span : RewriteContext → RewritePosition → RewriteSpan
unfolding matching_end
bracket_call_context_span context end =
    span_to context.name_span.begin
      (matching_end left_bracket right_bracket 0 context.opening_tokens end)

unfoldable pub rewrite_context_span : RewriteContext → RewritePosition → RewriteSpan
unfolding bracket_call_context_span delimited_context_span
rewrite_context_span context end = elim context.kind [
  | tuple_context ↦ elim context.opening_tokens [
    | [] ↦ span_to context.opening_span.begin end
    | opening ∷ tokens ↦ delimited_context_span opening tokens right_bracket end
  ]
  | _ ↦ bracket_call_context_span context end
]

unfoldable pub skip_blanks : List RewriteToken → List RewriteToken
unfolding is_blank
skip_blanks [] = []
skip_blanks (t ∷ tokens) = let rest = skip_blanks tokens in if is_blank t then rest else t ∷ tokens

unfoldable pub token_starts_expression : RewriteToken → Bool
unfolding is_kind is_scalar_token
token_starts_expression token =
    is_scalar_token token
    || (is_kind token name
        || (is_kind token left_bracket
            || (is_kind token left_parenthesis
                || (is_kind token bool_type
                    || (is_kind token int_type
                        || (is_kind token double_type
                            || (is_kind token malformed_literal || is_kind token invalid)))))))

unfoldable take_bytes : ℕ → Bytes → Bytes
take_bytes zero bytes = []
take_bytes (suc n) [] = []
take_bytes (suc n) (b ∷ bytes) = b ∷ take_bytes n bytes

unfoldable drop_bytes : ℕ → Bytes → Bytes
drop_bytes zero bytes = bytes
drop_bytes (suc n) [] = []
drop_bytes (suc n) (b ∷ bytes) = drop_bytes n bytes

-- The bytes of a source that a span covers.
unfoldable pub span_spelling : Bytes → RewriteSpan → Bytes
unfolding take_bytes drop_bytes
span_spelling source span =
    take_bytes (span.end.offset - span.begin.offset) (drop_bytes (span.begin.offset - 1) source)

unfoldable pub rewrite_token_spelling : Bytes → RewriteToken → Bytes
unfolding span_spelling
rewrite_token_spelling source token = span_spelling source token.span

unfoldable pub parameter_type : RewriteTokenKind → Option ScalarType
parameter_type bool_type = some boolean
parameter_type int_type = some integer
parameter_type double_type = some double_precision
parameter_type _ = none

unfoldable all_name_bytes : Bytes → Bool
unfolding is_name_byte
all_name_bytes [] = true
all_name_bytes (b ∷ bytes) = is_name_byte b && all_name_bytes bytes

unfoldable pub parameter_name_spelling : Bytes → Bool
unfolding all_name_bytes is_lowercase
parameter_name_spelling [] = false
parameter_name_spelling (b ∷ bytes) = is_lowercase b && all_name_bytes bytes

abbrev pub literal_failure : RewriteLiteralError → RewriteParseError
literal_failure range = literal_range
literal_failure _ = malformed_literal_error

-- The error for a token that is no literal, where the surroundings name none themselves.
unfoldable pub token_failure : RewriteToken → RewriteParseError → RewriteParseError
unfolding is_kind
token_failure token otherwise =
    if is_kind token malformed_literal
    then literal_failure token.literal_error
    else if is_kind token invalid
    then invalid_byte
    else otherwise
