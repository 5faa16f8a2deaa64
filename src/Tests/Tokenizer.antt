-- ===== src/Tests/Tokenizer.antt =====
-- The tokenizer of src/rewrite.cpp on texts.
use bennu.Prelude.{
  ◌≡◌, refl, true, false, List, [], ◌∷◌, Option, none, some, Bytes, codes, map, ◌++◌,
}
use bennu.Prelude.Int.{negsuc, ◌+ℤ◌, ◌-ℤ◌}
use bennu.Tokenizer.Types.{
  RewriteTokenKind, RewriteToken, RewriteTokens, is_lowercase, is_uppercase, is_digit,
  is_horizontal_space, is_numeric_candidate_byte, is_name_byte, is_word_byte, make_token, advance,
  next_line,
}
use bennu.Tokenizer.Types
use bennu.Tokenizer.Grammar.{
  all_digits, canonical_digits, canonical_integer_grammar, parse_canonical_integer,
  from_chars_integer, digits_value, is_empty, finite_double_grammar, skip_minus,
  unsigned_double_grammar, skip_digits, skip_some_digits, fraction_grammar, exponent_grammar,
  skip_exponent_sign,
}
use bennu.Tokenizer.Decimal.{
  decimal_rounds_to_zero, decimal_scientific_exponent, scan_digits, count_digit, is_exponent_mark,
  exponent_digits, explicit_exponent, at_most_million, threshold_digit, threshold_remains,
  compare_digits,
}
use bennu.Tokenizer.Scan.{
  DoubleParser, converted, numeric_token, name_token, type_kind, punctuation_kind, run,
  starts_line_feed, scan_token, tokenize_from, tokenize_rewrite, start,
}
use bennu.Tokenizer.Positions.{position_after}
use bennu.Tokenizer.Tiles.{Tiles, tokenize_rewrite-Tiles}
use bennu.Tokenizer.Integers.{decimal, integer_token, numeric_token-decimal}

-- A conversion that reads no byte.
abbrev no_parser : DoubleParser
no_parser = λ spelling. record { converted_value = 0; converted_size = 0; error = converted }

abbrev kinds : Option RewriteTokens → List RewriteTokenKind
kinds none = []
kinds (some result) = map (λ (t : RewriteToken). t.kind) result.tokens

-- A carriage return and a line feed end a line together.
abbrev two_lines : Bytes
two_lines = codes "add[1 -x]" ++ (13 ∷ 10 ∷ codes "Int")

kinds-two_lines :
    kinds (tokenize_rewrite no_parser two_lines)
    ≡ Types.name ∷ Types.left_bracket ∷ Types.int_literal ∷ Types.horizontal_space
      ∷ Types.malformed_literal ∷ Types.right_bracket ∷ Types.line_terminator ∷ Types.int_type ∷ []
unfolding tokenize_rewrite tokenize_from scan_token is_horizontal_space is_lowercase is_uppercase
    is_digit is_name_byte is_word_byte is_numeric_candidate_byte run name_token numeric_token
    make_token type_kind punctuation_kind starts_line_feed parse_canonical_integer digits_value
    canonical_integer_grammar canonical_digits all_digits from_chars_integer finite_double_grammar
kinds-two_lines = refl

doubles_accepted : finite_double_grammar (codes "-0.5e+10") ≡ true
unfolding finite_double_grammar skip_minus unsigned_double_grammar skip_digits skip_some_digits
    fraction_grammar exponent_grammar skip_exponent_sign is_digit is_empty
doubles_accepted = refl

exponent_of : decimal_scientific_exponent (codes "-0.0025e-1") ≡ negsuc 3
unfolding decimal_scientific_exponent scan_digits count_digit is_exponent_mark explicit_exponent
    exponent_digits at_most_million skip_minus ◌+ℤ◌ ◌-ℤ◌
exponent_of = refl

-- Half of the least positive double rounds to zero, and a little more does not.
half_rounds : decimal_rounds_to_zero (codes "2.4e-324") ≡ true
unfolding decimal_rounds_to_zero decimal_scientific_exponent scan_digits count_digit
    is_exponent_mark explicit_exponent exponent_digits at_most_million skip_minus compare_digits
    threshold_digit threshold_remains ◌+ℤ◌ ◌-ℤ◌
half_rounds = refl

more_stays : decimal_rounds_to_zero (codes "2.5e-324") ≡ false
unfolding decimal_rounds_to_zero decimal_scientific_exponent scan_digits count_digit
    is_exponent_mark explicit_exponent exponent_digits at_most_million skip_minus compare_digits
    threshold_digit threshold_remains ◌+ℤ◌ ◌-ℤ◌
more_stays = refl

tokenize_rewrite-Tiles_example :
    (result : RewriteTokens) × (tokenize_rewrite no_parser two_lines ≡ some result)
    × Tiles start result.tokens two_lines result.end
    × (result.end ≡ position_after start two_lines)
tokenize_rewrite-Tiles_example = tokenize_rewrite-Tiles no_parser two_lines

numeric_token-decimal_example :
    numeric_token no_parser (decimal (negsuc 9223372036854775807)) start start
    ≡ integer_token (negsuc 9223372036854775807) start start
numeric_token-decimal_example =
    numeric_token-decimal no_parser (negsuc 9223372036854775807) start start
