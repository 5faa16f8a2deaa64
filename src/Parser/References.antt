-- ===== src/Parser/References.antt =====
-- The indices of nodes in the parser of src/rewrite.cpp: the header and the loop of `parse_rewrite`.
use bennu.Prelude.{
  ℕ, zero, suc, ◌+◌, ◌*◌, ◌≡◌, inl, inr, Option-cases, List, [], ◌∷◌, Option, none, some, Bytes,
  length, true, arith, refl,
}
use bennu.Tokenizer.Types.{RewritePosition, RewriteToken, RewriteTokens}
use bennu.Tokenizer.Scan.{DoubleParser}
use bennu.Parser.Types.{RewriteProgram, RewriteParseResult, RewriteContext, RewriteParameterHeader}
use bennu.Parser.Spans.{skip_blanks, parameter_type}
use bennu.Parser.Header.{
  HeaderParsed, header_read, header_refusal, Expected, a_name, after_name, a_type, after_type,
  header_loop, header_unclosed, finish_header, header_opening, header_from, declare_parameter,
  parse_parameter_header, close_header,
}
use bennu.Parser.Finish.{ParseState, Next, go_on, ended}
use bennu.Parser.Closing.{after_expression, at_root, in_context}
use bennu.Parser.Loop.{
  parse_step, parse_loop, parse_tokens, parse_rewrite, first_state, empty_program,
}
use bennu.Parser.Ordered.{same-Ordered}
use bennu.Parser.Inside.{Inside, InsideState, Pending, Keeps}
use bennu.Parser.Arena.{after_expression-Keeps}
use bennu.Parser.Safe.{in_context-Keeps, at_root-Keeps}
use bennu.Tokenizer.Tiles.{tokenize_rewrite-Tiles}
use mathlib.Core.Option.{some-injective}
use mathlib.Core.Path.{subst}
use bennu.Parser.Terminates.{parse_rewrite-IsSome}

unfoldable Heads : HeaderParsed → Type 0
Heads (header_read program rest) = Inside program
Heads (header_refusal result) = Inside result.program

with_header-Inside :
    (p : RewriteProgram) (header : RewriteParameterHeader)
    → Inside p
    → Inside (record p { parameter_header = header })
with_header-Inside p header i = record {
  arguments = i.arguments;
  tuple_elements = i.tuple_elements;
  roots = i.roots;
  branches = i.branches;
  operands = i.operands;
  ordered = same-Ordered p _ refl refl refl refl i.ordered;
}

finish_header-Heads :
    (p : RewriteProgram) (tokens : List RewriteToken) → Inside p → Heads (finish_header p tokens)
unfolding finish_header Heads
finish_header-Heads p [] i = i
finish_header-Heads p (t ∷ rest) i = ground (arith, i, finish_header-Heads p rest i)

header_unclosed-Heads :
    (p : RewriteProgram) (keyword : RewriteToken) (end : RewritePosition) (expected : Expected)
    → Inside p
    → Heads (header_unclosed p keyword end expected)
unfolding header_unclosed Heads
header_unclosed-Heads p keyword end a_name i = i
header_unclosed-Heads p keyword end (after_name t) i = i
header_unclosed-Heads p keyword end (a_type t) i = i
header_unclosed-Heads p keyword end (after_type t) i = i

module _ (keyword : RewriteToken) (end : RewritePosition) where
  header_loop-Heads :
      (p : RewriteProgram) (expected : Expected) (tokens : List RewriteToken)
      → Inside p
      → Heads (header_loop keyword end p expected tokens)
  unfolding header_loop Heads declare_parameter
  header_loop-Heads p expected [] i = header_unclosed-Heads p keyword end expected i
  header_loop-Heads p a_name (t ∷ rest) i =
      let closed = close_header p keyword t in
      let inside : Inside closed = with_header-Inside p closed.parameter_header i in
      ground (
        arith,
        i,
        header_loop-Heads p (after_name t) rest i,
        header_loop-Heads p a_name rest i,
        finish_header-Heads closed rest inside,
      )
  header_loop-Heads p (after_name label) (t ∷ rest) i =
      ground (arith, i, header_loop-Heads p (a_type label) rest i)
  header_loop-Heads p (a_type label) (t ∷ rest) i = elim (Option-cases (parameter_type t.kind)) [
    | inl untyped ↦ ground (arith, i, untyped, header_loop-Heads p (a_type label) rest i)
    | inr (type, typed) ↦
        let declared = declare_parameter p label t type in
        let inside : Inside declared = with_header-Inside p declared.parameter_header i in
        ground (
          arith,
          i,
          typed,
          header_loop-Heads p (a_type label) rest i,
          header_loop-Heads declared (after_type t) rest inside,
        )
  ]
  header_loop-Heads p (after_type type) (t ∷ rest) i =
      let closed = close_header p keyword t in
      let inside : Inside closed = with_header-Inside p closed.parameter_header i in
      ground (arith, i, header_loop-Heads p a_name rest i, finish_header-Heads closed rest inside)

header_opening-Heads :
    (keyword : RewriteToken) (end : RewritePosition) (p : RewriteProgram)
    (tokens : List RewriteToken)
    → Inside p
    → Heads (header_opening keyword end p tokens)
unfolding header_opening Heads
header_opening-Heads keyword end p [] i = i
header_opening-Heads keyword end p (t ∷ rest) i =
    let opens : RewriteParameterHeader = record p.parameter_header {
      present = true;
      keyword_span = keyword.span;
      opening_span = t.span;
    } in
    let opened = record p { parameter_header = opens } in
    ground
      (arith, i, header_loop-Heads keyword end opened a_name rest (with_header-Inside p opens i))

header_from-Heads :
    (end : RewritePosition) (p : RewriteProgram) (tokens visible : List RewriteToken)
    → Inside p
    → Heads (header_from end p tokens visible)
unfolding header_from Heads
header_from-Heads end p tokens [] i = i
header_from-Heads end p tokens (t ∷ rest) i = ground (arith, i, header_opening-Heads t end p rest i)

waiting-Keeps :
    (end : RewritePosition) (s : ParseState) (contexts : List RewriteContext)
    → InsideState s
    → Pending (length s.program.nodes) contexts
    → Keeps (elim contexts as (λ c. Next) [
      | [] ↦ at_root end s (skip_blanks s.tokens)
      | context ∷ outer ↦ in_context end s context outer
    ])
waiting-Keeps end s [] i w = at_root-Keeps end s (skip_blanks s.tokens) i
waiting-Keeps end s (context ∷ outer) i w =
    in_context-Keeps end s context outer (record { state = i; waits = w.0; around = w.1 })

completed-Keeps :
    (end : RewritePosition) (s : ParseState) (completed : Option ℕ)
    → InsideState s
    → s.completed ≡ completed
    → Keeps (elim completed as (λ c. Next) [
      | some node ↦ after_expression end s node
      | none ↦ elim s.contexts as (λ c. Next) [
        | [] ↦ at_root end s (skip_blanks s.tokens)
        | context ∷ outer ↦ in_context end s context outer
      ]
    ])
completed-Keeps end s none i e = waiting-Keeps end s s.contexts i i.pending
completed-Keeps end s (some node) i e = after_expression-Keeps end s node i (rw e at i.completed)

-- A pass of the loop keeps every reference in the arena.
parse_step-Keeps :
    (end : RewritePosition) (s : ParseState) → InsideState s → Keeps (parse_step end s)
unfolding parse_step
parse_step-Keeps end s i = completed-Keeps end s s.completed i refl

next-Inside :
    (x : Next) (go : ParseState → Option RewriteParseResult) (result : RewriteParseResult)
    → ((s : ParseState) → InsideState s → go s ≡ some result → Inside result.program)
    → Keeps x
    → (elim x as (λ n. Option RewriteParseResult) [ ended r ↦ some r | go_on s ↦ go s ])
      ≡ some result
    → Inside result.program
unfolding Keeps
next-Inside (ended r) go result rest k e =
    let same : r ≡ result = some-injective _ _ e in
    subst (λ (r : RewriteParseResult). Inside r.program) same k
next-Inside (go_on s) go result rest k e = rest s k e

parse_loop-Inside :
    (end : RewritePosition) (fuel : ℕ) (s : ParseState) (result : RewriteParseResult)
    → InsideState s
    → parse_loop end fuel s ≡ some result
    → Inside result.program
unfolding parse_loop
parse_loop-Inside end zero s result i e = absurd (cc e)
parse_loop-Inside end (suc fuel) s result i e =
    next-Inside (parse_step end s) (parse_loop end fuel) result
      (λ s'. parse_loop-Inside end fuel s' result) (parse_step-Keeps end s i) e

header-Inside :
    (end : RewritePosition) (h : HeaderParsed) (result : RewriteParseResult)
    → Heads h
    → (elim h as (λ h. Option RewriteParseResult) [
      | header_refusal r ↦ some r
      | header_read program rest ↦ parse_loop end (length rest * 2 + 1) (first_state program rest)
    ])
      ≡ some result
    → Inside result.program
unfolding Heads
header-Inside end (header_refusal r) result k e =
    let same : r ≡ result = some-injective _ _ e in
    subst (λ (r : RewriteParseResult). Inside r.program) same k
header-Inside end (header_read program rest) result k e =
    parse_loop-Inside end (length rest * 2 + 1) (first_state program rest) result
      (record { program = k; pending = tt; completed = tt }) e

parse_tokens-Inside :
    (source : Bytes) (tokens : RewriteTokens) (result : RewriteParseResult)
    → parse_tokens source tokens ≡ some result
    → Inside result.program
unfolding parse_tokens parse_parameter_header
parse_tokens-Inside source tokens result e =
    let start : Inside (empty_program source) = record {
      arguments = tt;
      tuple_elements = tt;
      roots = tt;
      branches = tt;
      operands = tt;
      ordered = λ index node e. absurd cc;
    } in
    header-Inside tokens.end _ result
      (header_from-Heads tokens.end (empty_program source) tokens.tokens (skip_blanks tokens.tokens)
        start)
      e

-- The parser gives a result for every source, and every node that its program refers to, as an
-- argument, an element of a tuple, a root, the root of a branch or the operand of a fanout, is in
-- the program's arena, also where the parse is refused. The arguments of a
-- call and the elements of a tuple stand before it in the arena.
pub parse_rewrite-Inside :
    (parser : DoubleParser) (source : Bytes)
    → (result : RewriteParseResult) × (parse_rewrite parser source ≡ some result)
      × Inside result.program
unfolding parse_rewrite
parse_rewrite-Inside parser source =
    let parsed = parse_rewrite-IsSome parser source in
    let tiles = tokenize_rewrite-Tiles parser source in
    (
      parsed.0,
      parsed.1,
      parse_tokens-Inside source tiles.0 parsed.0 (rw (tiles.1, parse_rewrite) at parsed.1),
    )
