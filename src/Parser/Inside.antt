-- ===== src/Parser/Inside.antt =====
-- The indices of nodes in the programs and the contexts of the parser of src/rewrite.cpp.
use bennu.Prelude.{
  ℕ, ◌≤◌, ◌<◌, ◌≡◌, Bool, true, false, List, [], ◌∷◌, ◌++◌, Option, none, some, All, length,
  length-append, if◌then◌else◌, nat_eq, bytes_eq, arith,
}
use bennu.Scalar.Types.{scalar_type_eq}
use bennu.Tokenizer.Types.{RewriteToken}
use bennu.Parser.Types.{
  RewriteProgram, RewriteParseResult, RewriteContext, RewriteNode, RewriteFanout,
  RewriteFanoutBranch, push, push_node,
}
use bennu.Parser.Finish.{ParseState, Next, go_on, ended}
use bennu.Parser.Ordered.{AllBelow, is_parent, IsBehind, Ordered, push_node-Ordered, plain-IsBehind}
use bennu.Parser.Atoms.{complete_with, complete_node, open_context}

pub weaken-All {ℓ} :
    {A : Type ℓ} (f : A → ℕ) (low high : ℕ) (xs : List A)
    → low ≤ high
    → All (λ a. f a < low) xs
    → All (λ a. f a < high) xs
weaken-All f low high [] h a = tt
weaken-All f low high (x ∷ xs) h a = (omega (arith, h, a.0), weaken-All f low high xs h a.1)

pub append-All {ℓ} :
    {A : Type ℓ} (P : A → Type 0) (xs ys : List A) → All P xs → All P ys → All P (xs ++ ys)
append-All P [] ys a b = b
append-All P (x ∷ xs) ys a b = (a.0, append-All P xs ys a.1 b)

-- Every index that a program holds is that of a node of its arena, which stands behind those that it
-- refers to.
pub record Inside (p : RewriteProgram) : Type 0 where
  pub arguments : AllBelow (length p.nodes) p.arguments
  pub tuple_elements : AllBelow (length p.nodes) p.tuple_elements
  pub roots : AllBelow (length p.nodes) p.roots
  pub branches : All (λ (b : RewriteFanoutBranch). b.root < length p.nodes) p.fanout_branches
  pub operands : All (λ (f : RewriteFanout). f.operand < length p.nodes) p.fanouts
  pub ordered : Ordered p

abbrev pub Pending : ℕ → List RewriteContext → Type 0
Pending n = All (λ (c : RewriteContext). AllBelow n c.pending)

abbrev pub Completed : ℕ → Option ℕ → Type 0
Completed n none = Unit
Completed n (some node) = node < n

-- So is every index that a state of the parser holds.
pub record InsideState (s : ParseState) : Type 0 where
  pub program : Inside s.program
  pub pending : Pending (length s.program.nodes) s.contexts
  pub completed : Completed (length s.program.nodes) s.completed

unfoldable pub Keeps : Next → Type 0
Keeps (go_on s) = InsideState s
Keeps (ended result) = Inside result.program

pub ended-Keeps : (result : RewriteParseResult) → Inside result.program → Keeps (ended result)
unfolding Keeps
ended-Keeps result i = i

pub if-Keeps : (b : Bool) (x y : Next) → Keeps x → Keeps y → Keeps (if b then x else y)
if-Keeps true x y k l = k
if-Keeps false x y k l = l

pub weaken-Pending :
    (low high : ℕ) (contexts : List RewriteContext)
    → low ≤ high
    → Pending low contexts
    → Pending high contexts
weaken-Pending low high [] h a = tt
weaken-Pending low high (c ∷ contexts) h a =
    (weaken-All (λ n. n) low high c.pending h a.0, weaken-Pending low high contexts h a.1)

-- Another node in the arena.
pub push_node-Inside :
    (p : RewriteProgram) (node : RewriteNode)
    → IsBehind p (length p.nodes) node
    → Inside p
    → Inside (push_node p node).0
push_node-Inside p node b i =
    let more : length p.nodes ≤ length (push p.nodes node) =
      omega (arith, length-append p.nodes (node ∷ [])) in
    record {
      arguments = weaken-All (λ n. n) _ _ p.arguments more i.arguments;
      tuple_elements = weaken-All (λ n. n) _ _ p.tuple_elements more i.tuple_elements;
      roots = weaken-All (λ n. n) _ _ p.roots more i.roots;
      branches =
          weaken-All (λ (b : RewriteFanoutBranch). b.root) _ _ p.fanout_branches more i.branches;
      operands = weaken-All (λ (f : RewriteFanout). f.operand) _ _ p.fanouts more i.operands;
      ordered = push_node-Ordered p node i.ordered b;
    }

-- A program that grew, with a new node completed.
pub complete_with-Keeps :
    (s : ParseState) (p : RewriteProgram) (node : ℕ) (rest : List RewriteToken)
    → InsideState s
    → length s.program.nodes ≤ length p.nodes
    → Inside p
    → node < length p.nodes
    → Keeps (complete_with s p node rest)
unfolding Keeps
complete_with-Keeps s p node rest i more inside here = record {
  program = inside;
  pending = weaken-Pending _ _ s.contexts more i.pending;
  completed = here;
}

pub complete_node-Keeps :
    (s : ParseState) (node : RewriteNode) (rest : List RewriteToken)
    → is_parent node.kind ≡ false
    → InsideState s
    → Keeps (complete_node s node rest)
complete_node-Keeps s node rest leaf i =
    complete_with-Keeps s _ _ rest i (omega (arith, length-append s.program.nodes (node ∷ [])))
      (push_node-Inside s.program node (plain-IsBehind s.program (length s.program.nodes) node leaf)
        i.program)
      (omega (arith, length-append s.program.nodes (node ∷ [])))

pub open_context-Keeps :
    (s : ParseState) (context : RewriteContext) (rest : List RewriteToken)
    → context.pending ≡ []
    → InsideState s
    → Keeps (open_context s context rest)
unfolding Keeps
open_context-Keeps s context rest e i = record {
  program = i.program;
  pending = (rw e tt, i.pending);
  completed = i.completed;
}
