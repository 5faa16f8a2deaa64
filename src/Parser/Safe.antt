-- ===== src/Parser/Safe.antt =====
-- The indices of nodes in the parser of src/rewrite.cpp, at the separators and closings of the
-- contexts.
use bennu.Prelude.{ℕ, ◌<◌, Bool, false, not, List, [], ◌∷◌, none, length, ◌==◌, nat_eq, refl}
use bennu.Tokenizer.Types.{RewritePosition, RewriteSpan, RewriteToken, right_bracket, left_brace}
use bennu.Parser.Types.{
  RewriteContext, RewriteContextKind, RewriteFanoutBranch, node_at, is_blank, is_kind, push,
  refused, insertion_span, expected_branch_body, bracket_call, tuple_context, prefix_call,
  fanout_context, fanout_branch,
}
use bennu.Parser.Spans.{skip_blanks, span_to}
use bennu.Parser.Finish.{
  ParseState, Next, go_on, ended, finish_delimited, finish_fanout, finish_fanout_branch,
  finish_branch_root, give_argument, is_call, inspect_branch_placeholder,
}
use bennu.Parser.Atoms.{opened, next_is}
use bennu.Parser.Closing.{
  in_branch, after_fanout_argument, before_operand, before_argument, after_separator,
  after_bracket_argument, at_root, in_prefix, in_context, close_bracket,
}
use bennu.Parser.Expressions.{parse_token-Keeps}
use bennu.Parser.Ordered.{AllBelow, same-Ordered}
use bennu.Parser.Inside.{
  append-All, Pending, InsideState, Keeps, ended-Keeps, if-Keeps, open_context-Keeps,
}
use bennu.Parser.Arena.{
  Grown-Keeps, finish_delimited-Grown, finish_fanout-Grown, give_argument-Pending,
}

-- The state in the innermost context, whose nodes are in the arena.
pub record InContext (s : ParseState) (c : RewriteContext) (outer : List RewriteContext)
    : Type 0 where
  pub state : InsideState s
  pub waits : AllBelow (length s.program.nodes) c.pending
  pub around : Pending (length s.program.nodes) outer

-- A branch that is done: its root goes to the fanout.
branch-Keeps :
    (s : ParseState) (outer : List RewriteContext) (branch : RewriteFanoutBranch)
    → InsideState s
    → Pending (length s.program.nodes) outer
    → branch.root < length s.program.nodes
    → Keeps (
        go_on (record s {
          contexts = give_argument outer branch.root;
          program = record s.program { fanout_branches = push s.program.fanout_branches branch };
        }))
unfolding Keeps
branch-Keeps s outer branch i w h = record {
  program = record {
    arguments = i.program.arguments;
    tuple_elements = i.program.tuple_elements;
    roots = i.program.roots;
    branches =
        append-All (λ (b : RewriteFanoutBranch). b.root < length s.program.nodes)
          s.program.fanout_branches (branch ∷ []) i.program.branches (h, tt);
    operands = i.program.operands;
    ordered = same-Ordered s.program _ refl refl refl refl i.program.ordered;
  };
  pending = give_argument-Pending (length s.program.nodes) outer branch.root w h;
  completed = i.completed;
}

finish_branch_root-Keeps :
    (s : ParseState) (outer : List RewriteContext) (branch : RewriteContext) (root : ℕ)
    (closing : RewriteSpan)
    → InsideState s
    → Pending (length s.program.nodes) outer
    → root < length s.program.nodes
    → Keeps (finish_branch_root s outer branch root closing)
unfolding finish_branch_root
finish_branch_root-Keeps s outer branch root closing i w h =
    let node = node_at s.program root in
    let found =
      inspect_branch_placeholder (length s.program.nodes) s.program false root
        (record { count = 0; first_span = none; has_owned_position = false }) in
    if-Keeps (not (is_call node.kind)) _ _ (ended-Keeps _ i.program) (
      if-Keeps (not (found.count == 1)) _ _ (ended-Keeps _ i.program) (
        if-Keeps found.has_owned_position _ _ (ended-Keeps _ i.program)
          (branch-Keeps s outer _ i w h)))

finish_fanout_branch-Keeps :
    (s : ParseState) (outer : List RewriteContext) (branch : RewriteContext) (closing : RewriteSpan)
    → InContext s branch outer
    → Keeps (finish_fanout_branch s outer branch closing)
unfolding finish_fanout_branch
finish_fanout_branch-Keeps s outer branch closing c = body branch.pending c.waits
  where
    body :
        (pending : List ℕ)
        → AllBelow (length s.program.nodes) pending
        → Keeps (elim pending as (λ p. Next) [
          | [] ↦ ended (
              refused s.program expected_branch_body
                (insertion_span closing.begin)
                (span_to branch.opening_span.begin closing.end)
                branch.opening_span)
          | root ∷ others ↦ finish_branch_root s outer branch root closing
        ])
    body [] b = ended-Keeps _ c.state.program
    body (root ∷ others) b =
        finish_branch_root-Keeps s outer branch root closing c.state c.around b.0

read-state :
    (s : ParseState) (tokens : List RewriteToken)
    → InsideState s
    → InsideState (record s { tokens = tokens })
read-state s tokens i = record { program = i.program; pending = i.pending; completed = i.completed }

in_branch-Keeps :
    (end : RewritePosition) (s : ParseState) (branch : RewriteContext) (outer : List RewriteContext)
    (tokens : List RewriteToken)
    → InContext s branch outer
    → Keeps (in_branch end s branch outer tokens)
unfolding in_branch
in_branch-Keeps end s branch outer [] c = ended-Keeps _ c.state.program
in_branch-Keeps end s branch outer (t ∷ rest) c =
    if-Keeps _ _ _
      (if-Keeps _ _ _
        (finish_fanout_branch-Keeps (record s { tokens = rest }) outer branch t.span
          (record { state = read-state s rest c.state; waits = c.waits; around = c.around }))
        (ended-Keeps _ c.state.program))
      (if-Keeps _ _ _ (ended-Keeps _ c.state.program) (parse_token-Keeps end s t rest c.state))

after_fanout_argument-Keeps :
    (end : RewritePosition) (s : ParseState) (fanout : RewriteContext) (outer : List RewriteContext)
    (had_separator : Bool) (tokens : List RewriteToken)
    → InContext s fanout outer
    → Keeps (after_fanout_argument end s fanout outer had_separator tokens)
unfolding after_fanout_argument
after_fanout_argument-Keeps end s fanout outer had_separator [] c = ended-Keeps _ c.state.program
after_fanout_argument-Keeps end s fanout outer had_separator (t ∷ rest) c =
    let program = c.state.program in
    let next = opened fanout_branch t.span t.span (insertion_span t.span.end) [] in
    let closes =
      Grown-Keeps s outer (finish_fanout s.program fanout t.span) rest c.state c.around
        (finish_fanout-Grown s.program fanout t.span program c.waits) in
    let opens = open_context-Keeps s next rest refl c.state in
    if-Keeps (is_kind t right_bracket) _ _
      (if-Keeps (length fanout.pending == 1) _ _ (ended-Keeps _ program) closes)
      (if-Keeps (not (is_kind t left_brace)) _ _ (ended-Keeps _ program)
        (if-Keeps (not had_separator) _ _ (ended-Keeps _ program) opens))

before_operand-Keeps :
    (end : RewritePosition) (s : ParseState) (fanout : RewriteContext) (tokens : List RewriteToken)
    → InsideState s
    → Keeps (before_operand end s fanout tokens)
unfolding before_operand
before_operand-Keeps end s fanout [] i = ended-Keeps _ i.program
before_operand-Keeps end s fanout (t ∷ rest) i =
    if-Keeps _ _ _ (ended-Keeps _ i.program) (parse_token-Keeps end s t rest i)

close_bracket-Keeps :
    (s : ParseState) (context : RewriteContext) (outer : List RewriteContext)
    (closing : RewriteToken) (rest : List RewriteToken)
    → InContext s context outer
    → Keeps (close_bracket s context outer closing rest)
close_bracket-Keeps s context outer closing rest c =
    Grown-Keeps s outer (finish_delimited s.program context closing.span) rest c.state c.around
      (finish_delimited-Grown s.program context closing.span c.state.program c.waits)

before_argument-Keeps :
    (end : RewritePosition) (s : ParseState) (context : RewriteContext)
    (outer : List RewriteContext) (tokens : List RewriteToken)
    → InContext s context outer
    → Keeps (before_argument end s context outer tokens)
unfolding before_argument
before_argument-Keeps end s context outer [] c = ended-Keeps _ c.state.program
before_argument-Keeps end s context outer (t ∷ rest) c =
    if-Keeps _ _ _ (close_bracket-Keeps s context outer t rest c)
      (if-Keeps _ _ _ (ended-Keeps _ c.state.program) (parse_token-Keeps end s t rest c.state))

after_separator-Keeps :
    (end : RewritePosition) (s : ParseState) (context : RewriteContext)
    (outer : List RewriteContext) (tokens : List RewriteToken)
    → InContext s context outer
    → Keeps (after_separator end s context outer tokens)
unfolding after_separator Keeps
after_separator-Keeps end s context outer tokens c =
    let waiting = record context { after_argument = false } in
    if-Keeps (next_is tokens (λ t. is_kind t right_bracket)) _ _ (read-state s tokens c.state) (
      before_argument-Keeps end (record s { tokens = tokens; contexts = waiting ∷ outer }) waiting
        outer tokens
        (record {
          state = record {
            program = c.state.program;
            pending = (c.waits, c.around);
            completed = c.state.completed;
          };
          waits = c.waits;
          around = c.around;
        }))

after_bracket_argument-Keeps :
    (end : RewritePosition) (s : ParseState) (context : RewriteContext)
    (outer : List RewriteContext) (tokens : List RewriteToken)
    → InContext s context outer
    → Keeps (after_bracket_argument end s context outer tokens)
unfolding after_bracket_argument
after_bracket_argument-Keeps end s context outer [] c = ended-Keeps _ c.state.program
after_bracket_argument-Keeps end s context outer (t ∷ rest) c =
    if-Keeps _ _ _ (close_bracket-Keeps s context outer t rest c) (
      if-Keeps _ _ _ (after_separator-Keeps end s context outer (skip_blanks rest) c)
        (ended-Keeps _ c.state.program))

pub at_root-Keeps :
    (end : RewritePosition) (s : ParseState) (tokens : List RewriteToken)
    → InsideState s
    → Keeps (at_root end s tokens)
unfolding at_root
at_root-Keeps end s [] i = ended-Keeps _ i.program
at_root-Keeps end s (t ∷ rest) i = parse_token-Keeps end s t rest i

in_prefix-Keeps :
    (end : RewritePosition) (s : ParseState) (tokens : List RewriteToken)
    → InsideState s
    → Keeps (in_prefix end s tokens)
unfolding in_prefix
in_prefix-Keeps end s [] i = ended-Keeps _ i.program
in_prefix-Keeps end s (t ∷ rest) i = parse_token-Keeps end s t rest i

pub in_context-Keeps :
    (end : RewritePosition) (s : ParseState) (context : RewriteContext)
    (outer : List RewriteContext)
    → InContext s context outer
    → Keeps (in_context end s context outer)
unfolding in_context
in_context-Keeps end s context outer c =
    let skipped = skip_blanks s.tokens in
    let separated = next_is s.tokens is_blank in
    let bracket =
      if-Keeps context.after_argument _ _
        (after_bracket_argument-Keeps end s context outer s.tokens c)
        (before_argument-Keeps end s context outer s.tokens c) in
    let fanout =
      if-Keeps context.after_argument _ _
        (after_fanout_argument-Keeps end s context outer separated skipped c)
        (before_operand-Keeps end s context skipped c.state) in
    by_kind context.kind _ _ _ _ bracket fanout (in_branch-Keeps end s context outer skipped c)
      (in_prefix-Keeps end s s.tokens c.state)
  where
    by_kind :
        (k : RewriteContextKind) (bracket fanout branch prefix : Next)
        → Keeps bracket
        → Keeps fanout
        → Keeps branch
        → Keeps prefix
        → Keeps (elim k as (λ k. Next) [
          | fanout_branch ↦ branch
          | fanout_context ↦ fanout
          | prefix_call ↦ prefix
          | _ ↦ bracket
        ])
    by_kind bracket_call bracket fanout branch prefix b f r p = b
    by_kind tuple_context bracket fanout branch prefix b f r p = b
    by_kind prefix_call bracket fanout branch prefix b f r p = p
    by_kind fanout_context bracket fanout branch prefix b f r p = f
    by_kind fanout_branch bracket fanout branch prefix b f r p = r
