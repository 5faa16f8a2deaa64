-- ===== src/Parser/Types.antt =====
-- The data of the parser of src/rewrite.cpp. The linked list of the arguments that a context waits
-- for is a list, and an index of a token is the list of the tokens from it.
use bennu.Prelude.{
  ℕ, Bool, false, ◌||◌, List, [], ◌∷◌, ◌++◌, Option, none, some, Bytes, length, get_elem?, eqb,
}
use bennu.Prelude.Int.{ℤ, pos}
use bennu.Scalar.Types.{ScalarType, boolean, integer, double_precision}
use bennu.Primitive.Types.{PrimitiveId}
use bennu.Tokenizer.Types.{
  RewritePosition, RewriteSpan, RewriteTokenKind, RewriteToken, name, bool_literal, int_literal,
  double_literal, bool_type, int_type, double_type, left_bracket, right_bracket, left_parenthesis,
  right_parenthesis, left_brace, right_brace, placeholder, horizontal_space, line_terminator,
  malformed_literal, invalid,
}

pub data RewriteNodeKind : Type 0 where
  scalar_literal vector_literal tuple_literal parameter_reference : RewriteNodeKind
  unresolved_name primitive_call placeholder_node fanout_node : RewriteNodeKind

pub data RewriteCallSyntax : Type 0 where
  bracketed prefix : RewriteCallSyntax

pub data RewriteParseError : Type 0 where
  no_parse_error invalid_byte malformed_literal_error literal_range : RewriteParseError
  expected_expression primitive_requires_application : RewriteParseError
  whitespace_before_bracket missing_separator mismatched_delimiter : RewriteParseError
  missing_delimiter bare_empty_vector heterogeneous_vector : RewriteParseError
  invalid_vector_element trailing_input unknown_primitive : RewriteParseError
  expected_fanout_open expected_fanout_operand expected_fanout_branch : RewriteParseError
  expected_branch_open expected_branch_body expected_branch_close : RewriteParseError
  missing_fanout_close unexpected_fanout_token nested_fanout : RewriteParseError
  branch_root_not_primitive_call placeholder_count placeholder_owned_position : RewriteParseError

pub data ParameterErrorReason : Type 0 where
  second_parameter_header parameter_header_after_root expected_header_open : ParameterErrorReason
  expected_parameter_name expected_parameter_type missing_header_close : ParameterErrorReason
  unexpected_header_token trailing_header_bytes duplicate_parameter_name : ParameterErrorReason
  reserved_parameter_name program_only_parameter_header : ParameterErrorReason
  unsupported_parameterized_surface : ParameterErrorReason

pub record RewriteNode : Type 0 where
  pub kind : RewriteNodeKind
  pub span : RewriteSpan
  pub element_type : ScalarType
  pub boolean : Bool
  pub integer : ℤ
  pub double_bits : ℕ
  pub first_element : ℕ
  pub element_count : ℕ
  pub first_element_span : ℕ
  pub call_index : ℕ
  pub declaration_name_span : Option RewriteSpan

pub record RewriteCall : Type 0 where
  pub syntax : RewriteCallSyntax
  pub name_span : RewriteSpan
  pub opening_delimiter_span : RewriteSpan
  pub closing_delimiter_span : RewriteSpan
  pub prefix_separator_span : RewriteSpan
  pub span : RewriteSpan
  pub first_argument : ℕ
  pub argument_count : ℕ
  pub primitive : Option PrimitiveId

pub record RewriteFanoutBranch : Type 0 where
  pub span : RewriteSpan
  pub opening_span : RewriteSpan
  pub closing_span : RewriteSpan
  pub body_span : RewriteSpan
  pub placeholder_span : RewriteSpan
  pub root : ℕ

pub record RewriteFanout : Type 0 where
  pub keyword_span : RewriteSpan
  pub opening_span : RewriteSpan
  pub closing_span : RewriteSpan
  pub span : RewriteSpan
  pub operand_span : RewriteSpan
  pub operand : ℕ
  pub first_branch : ℕ
  pub branch_count : ℕ

pub record RewriteDiagnostic : Type 0 where
  pub error : RewriteParseError
  pub primary : RewriteSpan
  pub context : RewriteSpan
  pub related : RewriteSpan
  pub parameter_reason : Option ParameterErrorReason

pub record RewriteParameterDeclaration : Type 0 where
  pub name : Bytes
  pub type : ScalarType
  pub span : RewriteSpan
  pub name_span : RewriteSpan
  pub type_span : RewriteSpan

pub record RewriteParameterHeader : Type 0 where
  pub present : Bool
  pub span : RewriteSpan
  pub keyword_span : RewriteSpan
  pub opening_span : RewriteSpan
  pub closing_span : RewriteSpan
  pub declarations : List RewriteParameterDeclaration

pub record RewriteProgram : Type 0 where
  pub source : Bytes
  pub parameter_header : RewriteParameterHeader
  pub nodes : List RewriteNode
  pub arguments : List ℕ
  pub argument_spans : List RewriteSpan
  pub roots : List ℕ
  pub calls : List RewriteCall
  pub boolean_elements : List Bool
  pub integer_elements : List ℤ
  pub double_elements : List ℕ
  pub vector_element_spans : List RewriteSpan
  pub tuple_elements : List ℕ
  pub tuple_element_spans : List RewriteSpan
  pub fanouts : List RewriteFanout
  pub fanout_branches : List RewriteFanoutBranch

pub record RewriteParseResult : Type 0 where
  pub ok : Bool
  pub program : RewriteProgram
  pub diagnostic : RewriteDiagnostic

pub data RewriteContextKind : Type 0 where
  bracket_call tuple_context prefix_call fanout_context fanout_branch : RewriteContextKind

-- The nodes that wait are in the order of the source, and the opening is the tokens from it.
pub record RewriteContext : Type 0 where
  pub kind : RewriteContextKind
  pub name_span : RewriteSpan
  pub opening_span : RewriteSpan
  pub separator_span : RewriteSpan
  pub pending : List ℕ
  pub opening_tokens : List RewriteToken
  pub after_argument : Bool

unfoldable pub insertion_span : RewritePosition → RewriteSpan
insertion_span position = record { begin = position; end = position }

unfoldable pub kind_value : RewriteTokenKind → ℕ
kind_value name = 0
kind_value bool_literal = 1
kind_value int_literal = 2
kind_value double_literal = 3
kind_value bool_type = 4
kind_value int_type = 5
kind_value double_type = 6
kind_value left_bracket = 7
kind_value right_bracket = 8
kind_value left_parenthesis = 9
kind_value right_parenthesis = 10
kind_value left_brace = 11
kind_value right_brace = 12
kind_value placeholder = 13
kind_value horizontal_space = 14
kind_value line_terminator = 15
kind_value malformed_literal = 16
kind_value invalid = 17

unfoldable pub is_kind : RewriteToken → RewriteTokenKind → Bool
unfolding kind_value
is_kind token kind = eqb (kind_value token.kind) (kind_value kind)

unfoldable pub is_blank : RewriteToken → Bool
unfolding is_kind
is_blank token = is_kind token horizontal_space || is_kind token line_terminator

unfoldable pub scalar_token_type : RewriteTokenKind → ScalarType
scalar_token_type bool_literal = boolean
scalar_token_type int_literal = integer
scalar_token_type _ = double_precision

unfoldable pub is_scalar_token : RewriteToken → Bool
unfolding is_kind
is_scalar_token token =
    is_kind token bool_literal || (is_kind token int_literal || is_kind token double_literal)

-- A node with every field that its kind does not use at its default.
abbrev pub plain_node : RewriteNodeKind → RewriteSpan → ScalarType → RewriteNode
plain_node kind span type = record {
  kind = kind;
  span = span;
  element_type = type;
  boolean = false;
  integer = pos 0;
  double_bits = 0;
  first_element = 0;
  element_count = 0;
  first_element_span = 0;
  call_index = 0;
  declaration_name_span = none;
}

unfoldable pub scalar_node : RewriteToken → RewriteNode
unfolding scalar_token_type
scalar_node token = record (plain_node scalar_literal token.span (scalar_token_type token.kind)) {
  boolean = token.boolean;
  integer = token.integer;
  double_bits = token.double_bits;
}

abbrev pub push {ℓ} : {A : Type ℓ} → List A → A → List A
push xs x = xs ++ x ∷ []

abbrev nowhere : RewriteSpan
nowhere = record {
  begin = record { offset = 1; line = 1; column = 1 };
  end = record { offset = 1; line = 1; column = 1 };
}

-- A node that the source reads by its index.
unfoldable pub node_at : RewriteProgram → ℕ → RewriteNode
node_at program index = elim (get_elem? program.nodes index) [
  | none ↦ plain_node unresolved_name nowhere boolean
  | some node ↦ node
]

-- A node at the end of the arena, and its index.
abbrev pub push_node : RewriteProgram → RewriteNode → RewriteProgram × ℕ
push_node program node = (record program { nodes = push program.nodes node }, length program.nodes)

abbrev pub refused :
    RewriteProgram
    → RewriteParseError
    → RewriteSpan
    → RewriteSpan
    → RewriteSpan
    → RewriteParseResult
refused program error primary context related = record {
  ok = false;
  program = program;
  diagnostic = record {
    error = error;
    primary = primary;
    context = context;
    related = related;
    parameter_reason = none;
  };
}

abbrev pub parameter_refused :
    RewriteProgram
    → ParameterErrorReason
    → RewriteParseError
    → RewriteSpan
    → RewriteSpan
    → RewriteSpan
    → RewriteParseResult
parameter_refused program reason error primary context related =
    let r = refused program error primary context related in
    record r { diagnostic = record r.diagnostic { parameter_reason = some reason } }
