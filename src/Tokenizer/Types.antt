-- ===== src/Tokenizer/Types.antt =====
-- The types of the tokenizer of src/rewrite.cpp, its tests on bytes and `make_token`. A byte is a
-- number; the source compares signed bytes with ASCII letters only, which has the same outcome.
use bennu.Prelude.{ℕ, ◌+◌, Bool, false, List, ◌&&◌, ◌||◌, leb, ◌==◌, nat_eq}
use bennu.Prelude.Int.{ℤ, pos}

pub record RewritePosition : Type 0 where
  pub offset : ℕ
  pub line : ℕ
  pub column : ℕ

pub record RewriteSpan : Type 0 where
  pub begin : RewritePosition
  pub end : RewritePosition

pub data RewriteTokenKind : Type 0 where
  name bool_literal int_literal double_literal bool_type int_type double_type : RewriteTokenKind
  left_bracket right_bracket left_parenthesis right_parenthesis : RewriteTokenKind
  left_brace right_brace placeholder horizontal_space line_terminator : RewriteTokenKind
  malformed_literal invalid : RewriteTokenKind

pub data RewriteLiteralError : Type 0 where
  no_error malformed range : RewriteLiteralError

pub record RewriteToken : Type 0 where
  pub kind : RewriteTokenKind
  pub span : RewriteSpan
  pub boolean : Bool
  pub integer : ℤ
  pub double_bits : ℕ
  pub literal_error : RewriteLiteralError

-- The source's copy of the text is left out.
pub record RewriteTokens : Type 0 where
  pub tokens : List RewriteToken
  pub end : RewritePosition

unfoldable pub is_lowercase : ℕ → Bool
is_lowercase byte = leb b'a' byte && leb byte b'z'

unfoldable pub is_uppercase : ℕ → Bool
is_uppercase byte = leb b'A' byte && leb byte b'Z'

unfoldable pub is_digit : ℕ → Bool
is_digit byte = leb b'0' byte && leb byte b'9'

unfoldable pub is_horizontal_space : ℕ → Bool
is_horizontal_space byte = (byte == b' ') || (byte == 9)

unfoldable pub is_numeric_candidate_byte : ℕ → Bool
unfolding is_lowercase is_uppercase is_digit
is_numeric_candidate_byte byte =
    is_lowercase byte
    || (is_uppercase byte
        || (is_digit byte
            || ((byte == b'_') || ((byte == b'.') || ((byte == b'+') || (byte == b'-'))))))

-- A byte inside a name, and inside a word that begins with an uppercase letter.
unfoldable pub is_name_byte : ℕ → Bool
is_name_byte byte = is_lowercase byte || (is_digit byte || (byte == b'_'))

unfoldable pub is_word_byte : ℕ → Bool
is_word_byte byte = is_uppercase byte || (is_lowercase byte || (is_digit byte || (byte == b'_')))

unfoldable pub make_token : RewriteTokenKind → RewritePosition → RewritePosition → RewriteToken
make_token kind begin end = record {
  kind = kind;
  span = record { begin = begin; end = end };
  boolean = false;
  integer = pos 0;
  double_bits = 0;
  literal_error = no_error;
}

-- `offset` and `column` after as many bytes of one line.
unfoldable pub advance : RewritePosition → ℕ → RewritePosition
advance p count = record p { offset = p.offset + count; column = p.column + count }

unfoldable pub next_line : RewritePosition → ℕ → RewritePosition
next_line p count = record { offset = p.offset + count; line = p.line + 1; column = 1 }
