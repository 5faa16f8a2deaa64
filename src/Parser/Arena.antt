-- ===== src/Parser/Arena.antt =====
-- The indices of nodes in the parser of src/rewrite.cpp, where calls, tuples, fanouts and roots end.
use bennu.Prelude.{
  ℕ, ◌+◌, ◌≤◌, ◌<◌, ◌≡◌, List, [], ◌∷◌, none, length, length-append, nat_eq, arith, refl, sym,
  false,
}
use mathlib.Core.List.{append-nil}
use mathlib.Core.Path.{subst}
use bennu.Tokenizer.Types.{RewritePosition, RewriteSpan, RewriteToken}
use bennu.Parser.Types.{
  RewriteProgram, RewriteContext, RewriteFanout, RewriteNode, push, push_node, bracket_call,
  tuple_context, prefix_call, fanout_context, fanout_branch,
}
use bennu.Parser.Spans.{span_to}
use bennu.Parser.Finish.{
  ParseState, Next, go_on, append_pending_argument, finish_call, finish_tuple, finish_delimited,
  finish_fanout, give_argument,
}
use bennu.Parser.Atoms.{complete_with}
use bennu.Parser.Closing.{
  ClosedPrefixes, finish_prefix, close_prefixes, after_root, after_expression,
}
use bennu.Parser.Ordered.{
  AllBelow, is_parent, IsBehind, Grows-Ordered, same-Ordered, plain-IsBehind, call-IsBehind,
  tuple-IsBehind,
}
use bennu.Parser.Inside.{
  append-All, Inside, Pending, InsideState, Keeps, weaken-Pending, push_node-Inside,
  complete_with-Keeps,
}

-- A program with a new node, which is in its arena.
abbrev pub Grown : RewriteProgram → RewriteProgram × ℕ → Type 0
Grown p r = Inside r.0 × (r.1 < length r.0.nodes) × (length p.nodes ≤ length r.0.nodes)

push_node-Grown :
    (p p' : RewriteProgram) (node : RewriteNode)
    → p'.nodes ≡ p.nodes
    → IsBehind p' (length p.nodes) node
    → Inside p'
    → Grown p (push_node p' node)
push_node-Grown p p' node e b i = (
  push_node-Inside p' node
      (subst (λ (nodes : List RewriteNode). IsBehind p' (length nodes) node) (sym e) b) i,
  omega (arith, length-append p'.nodes (node ∷ [])),
  rw (← e) (omega (arith, length-append p'.nodes (node ∷ []))),
)

finish_call-Grown :
    (p : RewriteProgram) (c : RewriteContext) (closing complete : RewriteSpan)
    → Inside p
    → AllBelow (length p.nodes) c.pending
    → Grown p (finish_call p c closing complete)
unfolding finish_call
finish_call-Grown p c closing complete i below =
    push_node-Grown p _ _ refl
      (call-IsBehind _ (length p.nodes) _ _ p.arguments c.pending p.calls refl refl refl refl refl
        refl below)
      (record {
        ordered =
            Grows-Ordered p _
              (record {
                more_calls = _ ∷ [];
                more_arguments = c.pending;
                more_elements = [];
                nodes = refl;
                calls = refl;
                arguments = refl;
                elements = sym (append-nil p.tuple_elements);
              })
              i.ordered;
        arguments = append-All (λ a. a < length p.nodes) p.arguments c.pending i.arguments below;
        tuple_elements = i.tuple_elements;
        roots = i.roots;
        branches = i.branches;
        operands = i.operands;
      })

finish_tuple-Grown :
    (p : RewriteProgram) (c : RewriteContext) (closing : RewriteSpan)
    → Inside p
    → AllBelow (length p.nodes) c.pending
    → Grown p (finish_tuple p c closing)
unfolding finish_tuple
finish_tuple-Grown p c closing i below =
    push_node-Grown p _ _ refl
      (tuple-IsBehind _ (length p.nodes) _ p.tuple_elements c.pending refl refl refl refl below)
      (record {
        ordered =
            Grows-Ordered p _
              (record {
                more_calls = [];
                more_arguments = [];
                more_elements = c.pending;
                nodes = refl;
                calls = sym (append-nil p.calls);
                arguments = sym (append-nil p.arguments);
                elements = refl;
              })
              i.ordered;
        arguments = i.arguments;
        tuple_elements =
            append-All (λ a. a < length p.nodes) p.tuple_elements c.pending i.tuple_elements below;
        roots = i.roots;
        branches = i.branches;
        operands = i.operands;
      })

pub finish_delimited-Grown :
    (p : RewriteProgram) (c : RewriteContext) (closing : RewriteSpan)
    → Inside p
    → AllBelow (length p.nodes) c.pending
    → Grown p (finish_delimited p c closing)
unfolding finish_delimited
finish_delimited-Grown p c closing i below =
    let call = λ (complete : RewriteSpan). finish_call-Grown p c closing complete i below in
    elim c.kind
      as (λ k. Grown p (elim k as (λ k. RewriteProgram × ℕ) [
        | tuple_context ↦ finish_tuple p c closing
        | _ ↦ finish_call p c closing (span_to c.name_span.begin closing.end)
      ])) [
        | tuple_context ↦ finish_tuple-Grown p c closing i below
        | bracket_call ↦ call _
        | prefix_call ↦ call _
        | fanout_context ↦ call _
        | fanout_branch ↦ call _
      ]

operand-below :
    (n : ℕ) (pending : List ℕ)
    → AllBelow n pending
    → (elim pending as (λ x. ℕ) [ [] ↦ 0 | node ∷ nodes ↦ node ]) < n + 1
operand-below n [] b = omega arith
operand-below n (node ∷ nodes) b = omega (arith, b.0)

pub finish_fanout-Grown :
    (p : RewriteProgram) (c : RewriteContext) (closing : RewriteSpan)
    → Inside p
    → AllBelow (length p.nodes) c.pending
    → Grown p (finish_fanout p c closing)
unfolding finish_fanout
finish_fanout-Grown p c closing i below =
    let more = λ (node : RewriteNode). length-append p.nodes (node ∷ []) in
    let grown = λ (node : RewriteNode) (leaf : is_parent node.kind ≡ false).
      push_node-Inside p node (plain-IsBehind p (length p.nodes) node leaf) i in
    (
      record {
        arguments = (grown _ refl).arguments;
        tuple_elements = (grown _ refl).tuple_elements;
        ordered = same-Ordered (push_node p _).0 _ refl refl refl refl (grown _ refl).ordered;
        roots = (grown _ refl).roots;
        branches = (grown _ refl).branches;
        operands =
            append-All (λ (f : RewriteFanout). f.operand < _) p.fanouts (_ ∷ [])
              (grown _ refl).operands
              (omega (arith, more _, operand-below (length p.nodes) c.pending below), tt);
      },
      omega (arith, more _),
      omega (arith, more _),
    )

-- The innermost context and those around it hold nodes of the arena.
abbrev pub Waits : ParseState → RewriteContext → List RewriteContext → Type 0
Waits s c outer =
    AllBelow (length s.program.nodes) c.pending × Pending (length s.program.nodes) outer

-- The innermost context is closed with a new node.
pub Grown-Keeps :
    (s : ParseState) (outer : List RewriteContext) (r : RewriteProgram × ℕ)
    (rest : List RewriteToken)
    → InsideState s
    → Pending (length s.program.nodes) outer
    → Grown s.program r
    → Keeps (complete_with (record s { contexts = outer }) r.0 r.1 rest)
Grown-Keeps s outer r rest i w (inside, here, more) =
    complete_with-Keeps (record s { contexts = outer }) r.0 r.1 rest
      (record { program = i.program; pending = w; completed = i.completed }) more inside here

pub give_argument-Pending :
    (n : ℕ) (contexts : List RewriteContext) (node : ℕ)
    → Pending n contexts
    → node < n
    → Pending n (give_argument contexts node)
unfolding give_argument append_pending_argument
give_argument-Pending n [] node w h = tt
give_argument-Pending n (c ∷ contexts) node w h =
    (append-All (λ a. a < n) c.pending (node ∷ []) w.0 (h, tt), w.1)

pub after_root-Keeps :
    (end : RewritePosition) (p : RewriteProgram) (node : ℕ) (tokens : List RewriteToken)
    → Inside p
    → Keeps (after_root end p node tokens)
unfolding after_root Keeps
after_root-Keeps end p node [] i = i
after_root-Keeps end p node (t ∷ rest) i =
    let line : InsideState
        (record { tokens = rest; contexts = []; program = p; completed = none }) =
      record { program = i; pending = tt; completed = tt } in
    ground (arith, i, line, after_root-Keeps end p node rest i)

-- Closing the prefix calls leaves a node of a larger arena.
record Closed (closed : ClosedPrefixes) : Type 0 where
  inside : Inside closed.program
  here : closed.completed < length closed.program.nodes
  waits : Pending (length closed.program.nodes) closed.contexts

close_prefixes-Closed :
    (contexts : List RewriteContext) (p : RewriteProgram) (node : ℕ)
    → Inside p
    → Pending (length p.nodes) contexts
    → node < length p.nodes
    → Closed (close_prefixes contexts p node)
unfolding close_prefixes
close_prefixes-Closed [] p node i w h = record { inside = i; here = h; waits = tt }
close_prefixes-Closed (c ∷ contexts) p node i w h =
    let left : ClosedPrefixes = record { contexts = c ∷ contexts; program = p; completed = node } in
    let stays : Closed left = record { inside = i; here = h; waits = w } in
    let finished = finish_prefix c p node in
    let grown : Grown p finished =
      finish_call-Grown p (append_pending_argument c node) _ _ i
        (append-All (λ a. a < length p.nodes) c.pending (node ∷ []) w.0 (h, tt)) in
    let closes =
      close_prefixes-Closed contexts finished.0 finished.1 grown.0
        (weaken-Pending _ _ contexts grown.2 w.1) grown.1 in
    elim c.kind
      as (λ k. Closed (elim k as (λ k. ClosedPrefixes) [
        | prefix_call ↦ close_prefixes contexts finished.0 finished.1
        | _ ↦ left
      ])) [
        | prefix_call ↦ closes
        | bracket_call ↦ stays
        | tuple_context ↦ stays
        | fanout_context ↦ stays
        | fanout_branch ↦ stays
      ]

-- What follows the prefix calls: the end of a root, or an argument of the innermost context.
closed-Keeps :
    (end : RewritePosition) (tokens : List RewriteToken) (p : RewriteProgram) (node : ℕ)
    (contexts : List RewriteContext)
    → Inside p
    → node < length p.nodes
    → Pending (length p.nodes) contexts
    → Keeps (elim contexts as (λ c. Next) [
      | [] ↦ after_root end (record p { roots = push p.roots node }) node tokens
      | c ∷ outer ↦ go_on (record {
        tokens = tokens;
        contexts = give_argument (c ∷ outer) node;
        program = p;
        completed = none;
      })
    ])
unfolding Keeps
closed-Keeps end tokens p node [] i h w =
    after_root-Keeps end (record p { roots = push p.roots node }) node tokens
      (record {
        arguments = i.arguments;
        tuple_elements = i.tuple_elements;
        ordered = same-Ordered p _ refl refl refl refl i.ordered;
        roots = append-All (λ a. a < length p.nodes) p.roots (node ∷ []) i.roots (h, tt);
        branches = i.branches;
        operands = i.operands;
      })
closed-Keeps end tokens p node (c ∷ outer) i h w = record {
  program = i;
  pending = give_argument-Pending (length p.nodes) (c ∷ outer) node w h;
  completed = tt;
}

pub after_expression-Keeps :
    (end : RewritePosition) (s : ParseState) (node : ℕ)
    → InsideState s
    → node < length s.program.nodes
    → Keeps (after_expression end s node)
unfolding after_expression
after_expression-Keeps end s node i h =
    let closed = close_prefixes s.contexts s.program node in
    let c = close_prefixes-Closed s.contexts s.program node i.program i.pending h in
    closed-Keeps end s.tokens closed.program closed.completed closed.contexts c.inside c.here
      c.waits
