-- ===== src/Tokenizer/Scan.antt =====
-- `numeric_token` and `tokenize_rewrite` of src/rewrite.cpp. The conversion of a decimal text to a
-- double is the library's or the platform's, and a parameter.
use bennu.Prelude.{
  ℕ, zero, suc, Bool, false, not, ◌&&◌, ◌||◌, [], ◌∷◌, Option, none, some, Bytes, codes, length,
  if◌then◌else◌, ◌==◌, nat_eq, bytes_eq,
}
use bennu.Scalar.Binary64.{binary64_is_nan, binary64_is_infinity}
use bennu.Tokenizer.Types.{
  RewritePosition, RewriteTokenKind, name, bool_literal, int_literal, double_literal, bool_type,
  int_type, double_type, left_bracket, right_bracket, left_parenthesis, right_parenthesis,
  left_brace, right_brace, placeholder, horizontal_space, line_terminator, malformed_literal,
  invalid, no_error, malformed, range, RewriteToken, RewriteTokens, is_lowercase, is_uppercase,
  is_digit, is_horizontal_space, is_numeric_candidate_byte, is_name_byte, is_word_byte, make_token,
  advance, next_line,
}
use bennu.Tokenizer.Grammar.{
  parse_canonical_integer, canonical_integer_grammar, finite_double_grammar,
}
use bennu.Tokenizer.Decimal.{decimal_rounds_to_zero}

-- The outcome of `parse_finite_double`: the value, the bytes read and the error.
pub data ConversionError : Type 0 where
  converted result_out_of_range invalid_argument : ConversionError

pub record DoubleConversion : Type 0 where
  pub converted_value : ℕ
  pub converted_size : ℕ
  pub error : ConversionError

abbrev pub DoubleParser : Type 0
DoubleParser = Bytes → DoubleConversion

abbrev pub positive_infinity : ℕ
positive_infinity = 0x7ff0000000000000

abbrev pub negative_infinity : ℕ
negative_infinity = 0xfff0000000000000

abbrev pub quiet_nan : ℕ
quiet_nan = 0x7ff8000000000000

abbrev pub negative_zero : ℕ
negative_zero = 0x8000000000000000

abbrev pub starts_negative : Bytes → Bool
starts_negative [] = false
starts_negative (b ∷ bs) = b == b'-'

module _ (parse_finite_double : DoubleParser) where
  -- The part of `numeric_token` behind the integers and the grammar of doubles.
  unfoldable pub double_token : Bytes → RewriteToken → RewriteToken
  double_token spelling token =
      let result = parse_finite_double spelling in
      let literal = λ (bits : ℕ). record token {
        kind = double_literal;
        double_bits = bits;
        literal_error = no_error;
      } in
      elim result.error [
        | result_out_of_range ↦
            if decimal_rounds_to_zero spelling
            then literal (if starts_negative spelling then negative_zero else 0)
            else record token { literal_error = range }
        | invalid_argument ↦ record token { literal_error = range }
        | converted ↦
            if not (result.converted_size == length spelling)
              || (binary64_is_nan result.converted_value
                  || binary64_is_infinity result.converted_value)
            then record token { literal_error = range }
            else literal result.converted_value
      ]

  unfoldable pub numeric_token : Bytes → RewritePosition → RewritePosition → RewriteToken
  unfolding double_token
  numeric_token spelling begin end =
      let token = record (make_token malformed_literal begin end) { literal_error = malformed } in
      if spelling == codes "-inf"
      then record token {
        kind = double_literal;
        double_bits = negative_infinity;
        literal_error = no_error;
      }
      else elim (parse_canonical_integer spelling) [
        | some integer ↦ record token {
          kind = int_literal;
          integer = integer;
          literal_error = no_error;
        }
        | none ↦
            if canonical_integer_grammar spelling
            then record token { literal_error = range }
            else if not (finite_double_grammar spelling)
            then token
            else double_token spelling token
      ]

unfoldable pub name_token : Bytes → RewritePosition → RewritePosition → RewriteToken
name_token spelling begin end =
    let token = make_token name begin end in
    if (spelling == codes "true") || (spelling == codes "false")
    then record token { kind = bool_literal; boolean = spelling == codes "true" }
    else if (spelling == codes "inf") || (spelling == codes "nan")
    then record token {
      kind = double_literal;
      double_bits = if spelling == codes "inf" then positive_infinity else quiet_nan;
    }
    else token

unfoldable pub type_kind : Bytes → RewriteTokenKind
type_kind spelling =
    if spelling == codes "Bool"
    then bool_type
    else if spelling == codes "Int"
    then int_type
    else if spelling == codes "Double"
    then double_type
    else invalid

-- The final switch.
unfoldable pub punctuation_kind : ℕ → RewriteTokenKind
punctuation_kind byte =
    if byte == b'['
    then left_bracket
    else if byte == b']'
    then right_bracket
    else if byte == b'('
    then left_parenthesis
    else if byte == b')'
    then right_parenthesis
    else if byte == b'{'
    then left_brace
    else if byte == b'}'
    then right_brace
    else invalid

-- A `do` loop behind its first byte: the bytes it passes, and those it stops at.
pub record Run : Type 0 where
  pub passed : Bytes
  pub left : Bytes

unfoldable pub run : (ℕ → Bool) → Bytes → Run
run test [] = record { passed = []; left = [] }
run test (b ∷ bs) =
    let rest = run test bs in
    if test b
    then record { passed = b ∷ rest.passed; left = rest.left }
    else record { passed = []; left = b ∷ bs }

-- The first token of a source that begins with `byte`, and what is left to read.
pub record Scanned : Type 0 where
  pub token : RewriteToken
  pub position : RewritePosition
  pub source_left : Bytes

unfoldable pub starts_line_feed : Bytes → Bool
starts_line_feed [] = false
starts_line_feed (b ∷ bs) = b == 10

abbrev pub drop_one : Bytes → Bytes
drop_one [] = []
drop_one (b ∷ bs) = bs

abbrev pub start : RewritePosition
start = record { offset = 1; line = 1; column = 1 }

-- A token over the first byte and a run behind it.
unfoldable pub scan_run :
    (ℕ → Bool)
    → (Bytes → RewritePosition → RewritePosition → RewriteToken)
    → RewritePosition
    → ℕ
    → Bytes
    → Scanned
scan_run test token begin byte bytes =
    let r = run test bytes in
    let spelling = byte ∷ r.passed in
    let position = advance begin (length spelling) in
    record { token = token spelling begin position; position = position; source_left = r.left }

unfoldable pub scan_single : RewriteTokenKind → RewritePosition → RewritePosition → Bytes → Scanned
scan_single kind begin position bytes = record {
  token = make_token kind begin position;
  position = position;
  source_left = bytes;
}

unfoldable pub push_token : RewriteToken → RewriteTokens → RewriteTokens
push_token token result = record result { tokens = token ∷ result.tokens }

module _ (parse_finite_double : DoubleParser) where
  -- The body of the loop of `tokenize_rewrite`.
  unfoldable pub scan_token : RewritePosition → ℕ → Bytes → Scanned
  unfolding scan_run scan_single
  scan_token begin byte bytes =
      if is_horizontal_space byte
      then scan_run is_horizontal_space (λ spelling. make_token horizontal_space) begin byte bytes
      else if byte == 10
      then scan_single line_terminator begin (next_line begin 1) bytes
      else if (byte == 13) && starts_line_feed bytes
      then scan_single line_terminator begin (next_line begin 2) (drop_one bytes)
      else if is_lowercase byte
      then scan_run is_name_byte name_token begin byte bytes
      else if byte == b'_'
      then scan_single placeholder begin (advance begin 1) bytes
      else if is_uppercase byte
      then scan_run is_word_byte (λ spelling. make_token (type_kind spelling)) begin byte bytes
      else if is_digit byte || ((byte == b'-') || ((byte == b'+') || (byte == b'.')))
      then scan_run is_numeric_candidate_byte (numeric_token parse_finite_double) begin byte bytes
      else scan_single (punctuation_kind byte) begin (advance begin 1) bytes

  -- The loop; nothing if the fuel does not suffice.
  unfoldable pub tokenize_from : ℕ → RewritePosition → Bytes → Option RewriteTokens
  unfolding scan_token push_token
  tokenize_from fuel position [] = some (record { tokens = []; end = position })
  tokenize_from zero position (byte ∷ bytes) = none
  tokenize_from (suc fuel) position (byte ∷ bytes) =
      let s = scan_token position byte bytes in
      elim (tokenize_from fuel s.position s.source_left) [
        | none ↦ none
        | some result ↦ some (push_token s.token result)
      ]

  unfoldable pub tokenize_rewrite : Bytes → Option RewriteTokens
  unfolding tokenize_from
  tokenize_rewrite source = tokenize_from (length source) start source
