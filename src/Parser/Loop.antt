-- ===== src/Parser/Loop.antt =====
-- `parse_rewrite` of src/rewrite.cpp: the loop over the states of the parser.
use bennu.Prelude.{ℕ, zero, suc, ◌+◌, ◌*◌, false, List, [], ◌∷◌, Option, none, some, Bytes, length}
use bennu.Tokenizer.Types.{RewritePosition, RewriteSpan, RewriteTokens, RewriteToken}
use bennu.Tokenizer.Scan.{DoubleParser, tokenize_rewrite}
use bennu.Parser.Types.{RewriteProgram, RewriteParseResult, RewriteParameterHeader}
use bennu.Parser.Spans.{skip_blanks, span_to}
use bennu.Parser.Header.{parse_parameter_header, header_read, header_refusal}
use bennu.Parser.Finish.{ParseState, Next, go_on, ended}
use bennu.Parser.Closing.{after_expression, in_context, at_root}

-- One pass of the loop.
unfoldable pub parse_step : RewritePosition → ParseState → Next
unfolding after_expression in_context at_root skip_blanks
parse_step end s = elim s.completed [
  | some node ↦ after_expression end s node
  | none ↦ elim s.contexts [
    | [] ↦ at_root end s (skip_blanks s.tokens)
    | context ∷ outer ↦ in_context end s context outer
  ]
]

-- Nothing where the fuel is used up.
unfoldable pub parse_loop : RewritePosition → ℕ → ParseState → Option RewriteParseResult
unfolding parse_step
parse_loop end zero s = none
parse_loop end (suc fuel) s = elim (parse_step end s) [
  | ended result ↦ some result
  | go_on s' ↦ parse_loop end fuel s'
]

abbrev unset : RewriteSpan
unset =
    span_to (record { offset = 1; line = 1; column = 1 })
      (record { offset = 1; line = 1; column = 1 })

abbrev pub no_header : RewriteParameterHeader
no_header = record {
  present = false;
  span = unset;
  keyword_span = unset;
  opening_span = unset;
  closing_span = unset;
  declarations = [];
}

abbrev pub empty_program : Bytes → RewriteProgram
empty_program source = record {
  source = source;
  parameter_header = no_header;
  nodes = [];
  arguments = [];
  argument_spans = [];
  roots = [];
  calls = [];
  boolean_elements = [];
  integer_elements = [];
  double_elements = [];
  vector_element_spans = [];
  tuple_elements = [];
  tuple_element_spans = [];
  fanouts = [];
  fanout_branches = [];
}

abbrev pub first_state : RewriteProgram → List RewriteToken → ParseState
first_state program tokens = record {
  tokens = tokens;
  contexts = [];
  program = program;
  completed = none;
}

-- A pass reads a token or ends an expression, so two passes for each token are enough.
unfoldable pub parse_tokens : Bytes → RewriteTokens → Option RewriteParseResult
unfolding parse_parameter_header parse_loop
parse_tokens source tokens =
    elim (parse_parameter_header tokens.end (empty_program source) tokens.tokens) [
      | header_refusal result ↦ some result
      | header_read program rest ↦
          parse_loop tokens.end (length rest * 2 + 1) (first_state program rest)
    ]

unfoldable pub parse_rewrite : DoubleParser → Bytes → Option RewriteParseResult
unfolding tokenize_rewrite parse_tokens
parse_rewrite parser source = elim (tokenize_rewrite parser source) [
  | none ↦ none
  | some tokens ↦ parse_tokens source tokens
]
