-- ===== src/Parser/Closing.antt =====
-- The loop body of `parse_rewrite` of src/rewrite.cpp up to the token that begins an expression: what
-- follows a completed expression, and the separators and closings of the innermost context.
use bennu.Prelude.{
  ℕ, Bool, true, false, not, ◌||◌, List, [], ◌∷◌, none, length, if◌then◌else◌, ◌==◌, nat_eq,
}
use bennu.Tokenizer.Types.{
  RewritePosition, RewriteSpan, RewriteToken, right_bracket, right_parenthesis, left_brace,
  right_brace, horizontal_space, line_terminator, invalid,
}
use bennu.Parser.Types.{
  RewriteProgram, RewriteParseResult, RewriteContext, prefix_call, fanout_context, fanout_branch,
  node_at, push, is_kind, is_blank, refused, insertion_span, no_parse_error, trailing_input,
  mismatched_delimiter, expected_branch_close, expected_branch_body, missing_fanout_close,
  expected_fanout_branch, expected_branch_open, missing_separator, expected_fanout_operand,
  missing_delimiter, invalid_byte, RewriteParseError,
}
use bennu.Parser.Spans.{span_to, skip_blanks, rewrite_context_span, token_failure}
use bennu.Parser.Finish.{
  ParseState, Next, go_on, ended, append_pending_argument, finish_call, finish_delimited,
  give_argument, finish_fanout_branch, finish_fanout,
}
use bennu.Parser.Atoms.{complete_with, opened, open_context, next_is, parse_token}

abbrev pub accepted : RewritePosition → RewriteProgram → RewriteParseResult
accepted end program = record {
  ok = true;
  program = program;
  diagnostic = record {
    error = no_parse_error;
    primary = span_to end end;
    context = span_to end end;
    related = span_to end end;
    parameter_reason = none;
  };
}

-- What closing the prefix calls on an expression leaves.
pub record ClosedPrefixes : Type 0 where
  pub contexts : List RewriteContext
  pub program : RewriteProgram
  pub completed : ℕ

abbrev pub finish_prefix : RewriteContext → RewriteProgram → ℕ → RewriteProgram × ℕ
finish_prefix context program node =
    finish_call program (append_pending_argument context node)
      (insertion_span context.separator_span.end)
      (span_to context.name_span.begin (node_at program node).span.end)

unfoldable pub close_prefixes : List RewriteContext → RewriteProgram → ℕ → ClosedPrefixes
unfolding append_pending_argument finish_call insertion_span node_at
close_prefixes [] program node = record { contexts = []; program = program; completed = node }
close_prefixes (c ∷ contexts) program node =
    let finished = finish_prefix c program node in
    let rest = close_prefixes contexts finished.0 finished.1 in
    elim c.kind [
      | prefix_call ↦ rest
      | _ ↦ record { contexts = c ∷ contexts; program = program; completed = node }
    ]

-- What follows a root: nothing, the end of the line, or an error.
unfoldable pub after_root : RewritePosition → RewriteProgram → ℕ → List RewriteToken → Next
unfolding is_kind token_failure node_at
after_root end program node [] = ended (accepted end program)
after_root end program node (t ∷ rest) =
    let next = after_root end program node rest in
    let root_span = (node_at program node).span in
    if is_kind t horizontal_space
    then next
    else if is_kind t line_terminator
    then go_on (record { tokens = rest; contexts = []; program = program; completed = none })
    else ended (
        refused program
          (token_failure t (
            if is_kind t right_bracket || is_kind t right_parenthesis
            then mismatched_delimiter
            else trailing_input))
          t.span root_span root_span)

unfoldable pub after_expression : RewritePosition → ParseState → ℕ → Next
unfolding close_prefixes give_argument after_root
after_expression end s node =
    let closed = close_prefixes s.contexts s.program node in
    let program = closed.program in
    elim closed.contexts [
      | [] ↦
          after_root end (record program { roots = push program.roots closed.completed })
            closed.completed s.tokens
      | c ∷ contexts ↦ go_on (record {
        tokens = s.tokens;
        contexts = give_argument (c ∷ contexts) closed.completed;
        program = program;
        completed = none;
      })
    ]

-- The innermost context is a branch, and no blank is left before the tokens.
unfoldable pub in_branch :
    RewritePosition → ParseState → RewriteContext → List RewriteContext → List RewriteToken → Next
unfolding insertion_span is_kind finish_fanout_branch parse_token
in_branch end s branch outer [] = ended (
    refused s.program
      (if branch.after_argument then expected_branch_close else expected_branch_body)
      (insertion_span end) (span_to branch.opening_span.begin end) branch.opening_span)
in_branch end s branch outer (t ∷ rest) =
    let refuse : RewriteParseError → RewriteSpan → Next = λ error primary. ended (
      refused s.program error primary (span_to branch.opening_span.begin t.span.end)
        branch.opening_span) in
    if branch.after_argument
    then (if is_kind t right_brace
        then finish_fanout_branch (record s { tokens = rest }) outer branch t.span
        else refuse expected_branch_close t.span)
    else if is_kind t right_brace
    then refuse expected_branch_body (insertion_span t.span.begin)
    else parse_token end s t rest

-- The innermost context is a fanout that has its operand: whether a separator was skipped.
unfoldable pub after_fanout_argument :
    RewritePosition
    → ParseState
    → RewriteContext
    → List RewriteContext
    → Bool
    → List RewriteToken
    → Next
unfolding insertion_span is_kind finish_fanout
after_fanout_argument end s fanout outer had_separator [] = ended (
    refused s.program missing_fanout_close (insertion_span end) (span_to fanout.name_span.begin end)
      fanout.opening_span)
after_fanout_argument end s fanout outer had_separator (t ∷ rest) =
    let refuse : RewriteParseError → RewriteSpan → Next = λ error primary. ended (
      refused s.program error primary (span_to fanout.name_span.begin t.span.end)
        fanout.opening_span) in
    let finished = finish_fanout s.program fanout t.span in
    if is_kind t right_bracket
    then (if length fanout.pending == 1
        then refuse expected_fanout_branch (insertion_span t.span.begin)
        else complete_with (record s { contexts = outer }) finished.0 finished.1 rest)
    else if not (is_kind t left_brace)
    then refuse expected_branch_open t.span
    else if not had_separator
    then refuse missing_separator t.span
    else open_context s (opened fanout_branch t.span t.span (insertion_span t.span.end) []) rest

-- The innermost context is a fanout that waits for its operand.
unfoldable pub before_operand :
    RewritePosition → ParseState → RewriteContext → List RewriteToken → Next
unfolding insertion_span is_kind parse_token
before_operand end s fanout [] = ended (
    refused s.program expected_fanout_operand (insertion_span end)
      (span_to fanout.name_span.begin end) fanout.opening_span)
before_operand end s fanout (t ∷ rest) =
    if is_kind t right_bracket
    then ended (
        refused s.program expected_fanout_operand (insertion_span t.span.begin)
          (span_to fanout.name_span.begin t.span.end) fanout.opening_span)
    else parse_token end s t rest

abbrev pub bracket_failure :
    RewritePosition → ParseState → RewriteContext → RewriteParseError → RewriteSpan → Next
bracket_failure end s context error primary =
    ended (refused s.program error primary (rewrite_context_span context end) context.opening_span)

abbrev pub close_bracket :
    ParseState → RewriteContext → List RewriteContext → RewriteToken → List RewriteToken → Next
close_bracket s context outer closing rest =
    let finished = finish_delimited s.program context closing.span in
    complete_with (record s { contexts = outer }) finished.0 finished.1 rest

-- The innermost context is a call or a tuple that waits for an argument.
unfoldable pub before_argument :
    RewritePosition → ParseState → RewriteContext → List RewriteContext → List RewriteToken → Next
unfolding insertion_span is_kind finish_delimited rewrite_context_span parse_token
before_argument end s context outer [] =
    bracket_failure end s context missing_delimiter (insertion_span end)
before_argument end s context outer (t ∷ rest) =
    if is_kind t right_bracket
    then close_bracket s context outer t rest
    else if is_kind t right_parenthesis
    then bracket_failure end s context mismatched_delimiter t.span
    else parse_token end s t rest

-- The separators after an argument were skipped: the context closes, or waits for an argument.
unfoldable pub after_separator :
    RewritePosition → ParseState → RewriteContext → List RewriteContext → List RewriteToken → Next
unfolding is_kind before_argument
after_separator end s context outer tokens =
    let waiting = record context { after_argument = false } in
    if next_is tokens (λ t. is_kind t right_bracket)
    then go_on (record s { tokens = tokens })
    else before_argument end (record s { tokens = tokens; contexts = waiting ∷ outer }) waiting
        outer tokens

unfoldable pub after_bracket_argument :
    RewritePosition → ParseState → RewriteContext → List RewriteContext → List RewriteToken → Next
unfolding insertion_span is_kind is_blank skip_blanks finish_delimited rewrite_context_span
    after_separator
after_bracket_argument end s context outer [] =
    bracket_failure end s context missing_delimiter (insertion_span end)
after_bracket_argument end s context outer (t ∷ rest) =
    if is_kind t right_bracket
    then close_bracket s context outer t rest
    else if is_blank t
    then after_separator end s context outer (skip_blanks rest)
    else bracket_failure end s context
        (if is_kind t right_parenthesis
          then mismatched_delimiter
          else if is_kind t invalid
          then invalid_byte
          else missing_separator)
        t.span

-- No context is open: the end of the text accepts it.
unfoldable pub at_root : RewritePosition → ParseState → List RewriteToken → Next
unfolding parse_token
at_root end s [] = ended (accepted end s.program)
at_root end s (t ∷ rest) = parse_token end s t rest

-- The innermost context is a prefix call, which opens before a token.
unfoldable pub in_prefix : RewritePosition → ParseState → List RewriteToken → Next
unfolding parse_token insertion_span
in_prefix end s [] = ended (
    refused s.program missing_delimiter (insertion_span end) (insertion_span end)
      (insertion_span end))
in_prefix end s (t ∷ rest) = parse_token end s t rest

-- What the innermost context does with the tokens.
unfoldable pub in_context :
    RewritePosition → ParseState → RewriteContext → List RewriteContext → Next
unfolding in_branch after_fanout_argument before_operand after_bracket_argument before_argument
    in_prefix is_blank skip_blanks
in_context end s context outer =
    let bracket : Next =
      if context.after_argument
      then after_bracket_argument end s context outer s.tokens
      else before_argument end s context outer s.tokens in
    elim context.kind [
      | fanout_branch ↦ in_branch end s context outer (skip_blanks s.tokens)
      | fanout_context ↦
          if context.after_argument
          then after_fanout_argument end s context outer (next_is s.tokens is_blank)
              (skip_blanks s.tokens)
          else before_operand end s context (skip_blanks s.tokens)
      | prefix_call ↦ in_prefix end s s.tokens
      | _ ↦ bracket
    ]
