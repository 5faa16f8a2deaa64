-- ===== src/Parser/Terminates.antt =====
-- How many passes the loop of `parse_rewrite` of src/rewrite.cpp makes.
use bennu.Prelude.{
  ℕ, zero, suc, ◌+◌, ◌*◌, ◌≤◌, ◌<◌, ◌≡◌, inl, inr, Bool, Option-cases, false, List, [], ◌∷◌, Option,
  none, some, Bytes, length, nat_eq, bytes_eq, arith, refl,
}
use bennu.Tokenizer.Types.{RewritePosition, RewriteSpan, RewriteToken, RewriteTokens}
use bennu.Tokenizer.Scan.{DoubleParser}
use bennu.Tokenizer.Tiles.{tokenize_rewrite-Tiles}
use bennu.Parser.Types.{RewriteProgram, RewriteParseResult, RewriteContext, is_blank, push}
use bennu.Parser.Spans.{skip_blanks}
use bennu.Parser.Header.{HeaderParsed, header_read, header_refusal, parse_parameter_header}
use bennu.Parser.Finish.{ParseState, Next, go_on, ended, finish_fanout_branch, finish_branch_root}
use bennu.Parser.Atoms.{parse_token, next_is}
use bennu.Parser.Closing.{
  after_expression, after_root, close_prefixes, in_branch, after_fanout_argument, before_operand,
  before_argument, after_separator, after_bracket_argument, at_root, in_prefix, in_context,
}
use bennu.Parser.Loop.{
  parse_step, parse_loop, parse_tokens, parse_rewrite, first_state, empty_program,
}
use bennu.Parser.Ends.{length-skip_blanks, measure, Within, parse_token-Within, weaken-Within}

after_root-Within :
    (end : RewritePosition) (program : RewriteProgram) (node : ℕ) (tokens : List RewriteToken)
    → Within (length tokens * 2) (after_root end program node tokens)
unfolding after_root Within
after_root-Within end program node [] = tt
after_root-Within end program node (t ∷ rest) =
    let later : Within (suc (length rest) * 2) (after_root end program node rest) =
      weaken-Within (length rest * 2) _ (after_root end program node rest) (omega arith)
        (after_root-Within end program node rest) in
    ground (arith, later)

after_expression-Within :
    (end : RewritePosition) (s : ParseState) (node : ℕ)
    → Within (length s.tokens * 2) (after_expression end s node)
unfolding after_expression Within
after_expression-Within end s node =
    let closed = close_prefixes s.contexts s.program node in
    let rooted = record closed.program { roots = push closed.program.roots closed.completed } in
    ground (arith, after_root-Within end rooted closed.completed s.tokens)

finish_fanout_branch-Within :
    (s : ParseState) (outer : List RewriteContext) (branch : RewriteContext) (closing : RewriteSpan)
    → s.completed ≡ none
    → Within (length s.tokens * 2) (finish_fanout_branch s outer branch closing)
unfolding finish_fanout_branch finish_branch_root Within
finish_fanout_branch-Within s outer branch closing e = ground (arith, e)

-- A pass that goes on leaves a state below the measure.
unfoldable Below : ℕ → Next → Type 0
Below bound (go_on s) = measure s < bound
Below bound (ended result) = Unit

Within-Below : (bound higher : ℕ) (x : Next) → bound < higher → Within bound x → Below higher x
unfolding Within Below
Within-Below bound higher (go_on s) h w = omega (arith, h, w)
Within-Below bound higher (ended result) h w = tt

weaken-Below : (low high : ℕ) (x : Next) → low ≤ high → Below low x → Below high x
unfolding Below
weaken-Below low high (go_on s) h w = omega (arith, h, w)
weaken-Below low high (ended result) h w = tt

parse_token-Below :
    (end : RewritePosition) (s : ParseState) (t : RewriteToken) (rest : List RewriteToken)
    → s.completed ≡ none
    → Below (suc (length rest) * 2) (parse_token end s t rest)
parse_token-Below end s t rest e =
    Within-Below (length rest * 2 + 1) _ (parse_token end s t rest) (omega arith)
      (parse_token-Within end s t rest e)

in_branch-Below :
    (end : RewritePosition) (s : ParseState) (branch : RewriteContext) (outer : List RewriteContext)
    (tokens : List RewriteToken)
    → s.completed ≡ none
    → Below (length tokens * 2) (in_branch end s branch outer tokens)
unfolding in_branch Below
in_branch-Below end s branch outer [] e = tt
in_branch-Below end s branch outer (t ∷ rest) e = ground (
  arith,
  e,
  parse_token-Below end s t rest e,
  Within-Below (length rest * 2) (suc (length rest) * 2) _ (omega arith)
      (finish_fanout_branch-Within (record s { tokens = rest }) outer branch t.span e),
)

after_fanout_argument-Below :
    (end : RewritePosition) (s : ParseState) (fanout : RewriteContext) (outer : List RewriteContext)
    (had_separator : Bool) (tokens : List RewriteToken)
    → s.completed ≡ none
    → Below (length tokens * 2) (after_fanout_argument end s fanout outer had_separator tokens)
unfolding after_fanout_argument Below
after_fanout_argument-Below end s fanout outer had_separator [] e = tt
after_fanout_argument-Below end s fanout outer had_separator (t ∷ rest) e = ground (arith, e)

before_operand-Below :
    (end : RewritePosition) (s : ParseState) (fanout : RewriteContext) (tokens : List RewriteToken)
    → s.completed ≡ none
    → Below (length tokens * 2) (before_operand end s fanout tokens)
unfolding before_operand Below
before_operand-Below end s fanout [] e = tt
before_operand-Below end s fanout (t ∷ rest) e = ground (arith, e, parse_token-Below end s t rest e)

before_argument-Below :
    (end : RewritePosition) (s : ParseState) (context : RewriteContext)
    (outer : List RewriteContext) (tokens : List RewriteToken)
    → s.completed ≡ none
    → Below (length tokens * 2) (before_argument end s context outer tokens)
unfolding before_argument Below
before_argument-Below end s context outer [] e = tt
before_argument-Below end s context outer (t ∷ rest) e =
    ground (arith, e, parse_token-Below end s t rest e)

after_separator-Below :
    (end : RewritePosition) (s : ParseState) (context : RewriteContext)
    (outer : List RewriteContext) (tokens : List RewriteToken)
    → s.completed ≡ none
    → Below (length tokens * 2 + 1) (after_separator end s context outer tokens)
unfolding after_separator Below
after_separator-Below end s context outer tokens e =
    let waiting = record context { after_argument = false } in
    let s' = record s { tokens = tokens; contexts = waiting ∷ outer } in
    let later : Below (length tokens * 2 + 1) (before_argument end s' waiting outer tokens) =
      weaken-Below (length tokens * 2) _ (before_argument end s' waiting outer tokens) (omega arith)
        (before_argument-Below end s' waiting outer tokens e) in
    ground (arith, e, later)

after_bracket_argument-Below :
    (end : RewritePosition) (s : ParseState) (context : RewriteContext)
    (outer : List RewriteContext) (tokens : List RewriteToken)
    → s.completed ≡ none
    → Below (length tokens * 2) (after_bracket_argument end s context outer tokens)
unfolding after_bracket_argument Below
after_bracket_argument-Below end s context outer [] e = tt
after_bracket_argument-Below end s context outer (t ∷ rest) e =
    let later : Below (suc (length rest) * 2)
        (after_separator end s context outer (skip_blanks rest)) =
      weaken-Below (length (skip_blanks rest) * 2 + 1) _ _ (omega (arith, length-skip_blanks rest))
        (after_separator-Below end s context outer (skip_blanks rest) e) in
    ground (arith, e, later)

at_root-Below :
    (end : RewritePosition) (s : ParseState) (tokens : List RewriteToken)
    → s.completed ≡ none
    → Below (length tokens * 2) (at_root end s tokens)
unfolding at_root Below
at_root-Below end s [] e = tt
at_root-Below end s (t ∷ rest) e = parse_token-Below end s t rest e

in_prefix-Below :
    (end : RewritePosition) (s : ParseState) (tokens : List RewriteToken)
    → s.completed ≡ none
    → Below (length tokens * 2) (in_prefix end s tokens)
unfolding in_prefix Below
in_prefix-Below end s [] e = tt
in_prefix-Below end s (t ∷ rest) e = parse_token-Below end s t rest e

in_context-Below :
    (end : RewritePosition) (s : ParseState) (context : RewriteContext)
    (outer : List RewriteContext)
    → s.completed ≡ none
    → Below (length s.tokens * 2) (in_context end s context outer)
unfolding in_context
in_context-Below end s context outer e =
    let skipped = skip_blanks s.tokens in
    let low : length skipped * 2 ≤ length s.tokens * 2 =
      omega (arith, length-skip_blanks s.tokens) in
    let separated = next_is s.tokens is_blank in
    let branch =
      weaken-Below _ (length s.tokens * 2) _ low (in_branch-Below end s context outer skipped e) in
    let argument =
      weaken-Below _ (length s.tokens * 2) _ low
        (after_fanout_argument-Below end s context outer separated skipped e) in
    let operand =
      weaken-Below _ (length s.tokens * 2) _ low (before_operand-Below end s context skipped e) in
    ground (
      arith,
      branch,
      argument,
      operand,
      in_prefix-Below end s s.tokens e,
      after_bracket_argument-Below end s context outer s.tokens e,
      before_argument-Below end s context outer s.tokens e,
    )

waiting-Below :
    (end : RewritePosition) (s : ParseState) (contexts : List RewriteContext)
    → s.completed ≡ none
    → Below (length s.tokens * 2) (elim contexts as (λ c. Next) [
      | [] ↦ at_root end s (skip_blanks s.tokens)
      | context ∷ outer ↦ in_context end s context outer
    ])
waiting-Below end s [] e =
    weaken-Below (length (skip_blanks s.tokens) * 2) _ _
      (omega (arith, length-skip_blanks s.tokens)) (at_root-Below end s (skip_blanks s.tokens) e)
waiting-Below end s (context ∷ outer) e = in_context-Below end s context outer e

-- A pass that goes on makes the measure smaller.
parse_step-Below : (end : RewritePosition) (s : ParseState) → Below (measure s) (parse_step end s)
unfolding parse_step
parse_step-Below end s = elim (Option-cases s.completed) [
  | inr (node, e) ↦
      rw (e, parse_step)
        (Within-Below (length s.tokens * 2) _ (after_expression end s node) (omega arith)
          (after_expression-Within end s node))
  | inl e ↦ rw (e, parse_step) (weaken-Below _ _ _ (omega arith) (waiting-Below end s s.contexts e))
]

abbrev pub IsSome : Option RewriteParseResult → Type 0
IsSome o = (result : RewriteParseResult) × (o ≡ some result)

next-IsSome :
    (fuel : ℕ) (x : Next) (go : ParseState → Option RewriteParseResult)
    → ((s : ParseState) → measure s < fuel → IsSome (go s))
    → Below fuel x
    → IsSome
        (elim x as (λ n. Option RewriteParseResult) [ ended result ↦ some result | go_on s ↦ go s ])
unfolding Below
next-IsSome fuel (ended result) go rest b = (result, refl)
next-IsSome fuel (go_on s) go rest b = rest s b

parse_loop-IsSome :
    (end : RewritePosition) (fuel : ℕ) (s : ParseState)
    → measure s < fuel
    → IsSome (parse_loop end fuel s)
unfolding parse_loop
parse_loop-IsSome end zero s h = absurd (omega (arith, h))
parse_loop-IsSome end (suc fuel) s h =
    next-IsSome fuel (parse_step end s) (parse_loop end fuel) (parse_loop-IsSome end fuel)
      (weaken-Below (measure s) fuel _ (omega (arith, h)) (parse_step-Below end s))

header-IsSome :
    (end : RewritePosition) (h : HeaderParsed)
    → IsSome (elim h as (λ h. Option RewriteParseResult) [
      | header_refusal result ↦ some result
      | header_read program rest ↦ parse_loop end (length rest * 2 + 1) (first_state program rest)
    ])
header-IsSome end (header_refusal result) = (result, refl)
header-IsSome end (header_read program rest) =
    parse_loop-IsSome end (length rest * 2 + 1) (first_state program rest) (omega arith)

parse_tokens-IsSome :
    (source : Bytes) (tokens : RewriteTokens) → IsSome (parse_tokens source tokens)
unfolding parse_tokens
parse_tokens-IsSome source tokens =
    header-IsSome tokens.end
      (parse_parameter_header tokens.end (empty_program source) tokens.tokens)

-- The parser gives a result for every source.
pub parse_rewrite-IsSome :
    (parser : DoubleParser) (source : Bytes) → IsSome (parse_rewrite parser source)
unfolding parse_rewrite
parse_rewrite-IsSome parser source =
    let tiles = tokenize_rewrite-Tiles parser source in
    rw (tiles.1, parse_rewrite) (parse_tokens-IsSome source tiles.0)
