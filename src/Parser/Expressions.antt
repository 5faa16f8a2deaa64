-- ===== src/Parser/Expressions.antt =====
-- The indices of nodes in the parser of src/rewrite.cpp, at the tokens that begin an expression.
use bennu.Prelude.{
  ℕ, ◌+◌, ◌≤◌, ◌<◌, ◌≡◌, inl, inr, Bool, Option-cases, true, false, List, [], ◌∷◌, length,
  length-append, nat_eq, bytes_eq, arith, refl,
}
use bennu.Scalar.Types.{ScalarType, scalar_type_eq, boolean, integer, double_precision}
use bennu.Tokenizer.Types.{RewritePosition, RewriteToken}
use bennu.Parser.Types.{RewriteProgram, scalar_token_type}
use bennu.Parser.Spans.{skip_blanks, parameter_type, rewrite_token_spelling}
use bennu.Parser.Header.{find_parameter}
use bennu.Parser.Vector.{
  Parsed, completed, refusal, VectorLiteral, vector_loop, first_element, parse_vector_literal,
  append_vector_element, vector_payload_size, vector_unclosed, vector_mismatch, vector_refusal,
  vector_completed,
}
use bennu.Parser.Finish.{ParseState, Next, ended}
use bennu.Parser.Atoms.{
  complete_with, parse_token, parse_name, parse_vector, parse_placeholder, parse_empty_vector,
  open_call, open_prefix, open_fanout, fanout_operand, refuse_header, refuse_token,
}
use bennu.Parser.Ordered.{same-Ordered, plain-IsBehind}
use bennu.Parser.Inside.{
  Inside, InsideState, Keeps, ended-Keeps, if-Keeps, push_node-Inside, complete_with-Keeps,
  complete_node-Keeps, open_context-Keeps,
}

-- A vector literal only adds to the payloads and the arena.
unfoldable pub Extends : RewriteProgram → Parsed → Type 0
Extends p (completed p' node rest) =
    Inside p' × (node < length p'.nodes) × (length p.nodes ≤ length p'.nodes)
Extends p (refusal result) = Inside result.program

append_vector_element-Inside :
    (p : RewriteProgram) (t : RewriteToken) (type : ScalarType)
    → Inside p
    → Inside (append_vector_element p t type) × ((append_vector_element p t type).nodes ≡ p.nodes)
unfolding append_vector_element
append_vector_element-Inside p t boolean i = (
  record {
    arguments = i.arguments;
    tuple_elements = i.tuple_elements;
    roots = i.roots;
    branches = i.branches;
    operands = i.operands;
    ordered = same-Ordered p _ refl refl refl refl i.ordered;
  },
  refl,
)
append_vector_element-Inside p t integer i = (
  record {
    arguments = i.arguments;
    tuple_elements = i.tuple_elements;
    roots = i.roots;
    branches = i.branches;
    operands = i.operands;
    ordered = same-Ordered p _ refl refl refl refl i.ordered;
  },
  refl,
)
append_vector_element-Inside p t double_precision i = (
  record {
    arguments = i.arguments;
    tuple_elements = i.tuple_elements;
    roots = i.roots;
    branches = i.branches;
    operands = i.operands;
    ordered = same-Ordered p _ refl refl refl refl i.ordered;
  },
  refl,
)

same_nodes-Extends :
    (p p' : RewriteProgram) (x : Parsed) → p'.nodes ≡ p.nodes → Extends p' x → Extends p x
unfolding Extends
same_nodes-Extends p p' (completed p'' node rest) e (inside, here, more) =
    (inside, here, rw (← e) more)
same_nodes-Extends p p' (refusal result) e x = x

vector_completed-Extends :
    (p : RewriteProgram) (literal : VectorLiteral) (count : ℕ) (closing : RewriteToken)
    (rest : List RewriteToken)
    → Inside p
    → Extends p (vector_completed p literal count closing rest)
unfolding Extends
vector_completed-Extends p literal count closing rest i = (
  push_node-Inside p _ (plain-IsBehind p (length p.nodes) _ refl) i,
  omega (arith, length-append p.nodes (_ ∷ [])),
  omega (arith, length-append p.nodes (_ ∷ [])),
)

module _ (literal : VectorLiteral) where
  vector_loop-Extends :
      (separated : Bool) (count : ℕ) (p : RewriteProgram) (tokens : List RewriteToken)
      → Inside p
      → Extends p (vector_loop literal separated count p tokens)
  unfolding vector_loop vector_unclosed vector_mismatch vector_refusal Extends
  vector_loop-Extends separated count p [] i = i
  vector_loop-Extends separated count p (t ∷ rest) i =
      let appended = append_vector_element p t literal.element_type in
      let grown = append_vector_element-Inside p t literal.element_type i in
      let later : Extends p (vector_loop literal false (count + 1) appended rest) =
        same_nodes-Extends p appended _ grown.1
          (vector_loop-Extends false (count + 1) appended rest grown.0) in
      ground (
        arith,
        i,
        later,
        vector_loop-Extends true count p rest i,
        vector_completed-Extends p literal count t rest i,
      )

first_element-Extends :
    (opening : RewriteToken) (all : List RewriteToken) (end : RewritePosition) (p : RewriteProgram)
    (tokens : List RewriteToken)
    → Inside p
    → Extends p (first_element opening all end p tokens)
unfolding first_element vector_unclosed vector_mismatch vector_refusal Extends
first_element-Extends opening all end p [] i = i
first_element-Extends opening all end p (t ∷ rest) i =
    let loop =
      vector_loop-Extends
        (record {
          opening = opening;
          tokens = all;
          end = end;
          element_type = scalar_token_type t.kind;
          first_element = vector_payload_size p (scalar_token_type t.kind);
          first_element_span = length p.vector_element_spans;
        })
        true 0 p (t ∷ rest) i in
    ground (arith, loop, i)

Extends-Keeps :
    (s : ParseState) (x : Parsed)
    → InsideState s
    → Extends s.program x
    → Keeps (elim x as (λ x. Next) [
      | completed program node tokens ↦ complete_with s program node tokens
      | refusal result ↦ ended result
    ])
unfolding Extends Keeps
Extends-Keeps s (completed program node rest) i (inside, here, more) =
    complete_with-Keeps s program node rest i more inside here
Extends-Keeps s (refusal result) i x = x

parse_vector-Keeps :
    (end : RewritePosition) (s : ParseState) (t : RewriteToken) (rest : List RewriteToken)
    → InsideState s
    → Keeps (parse_vector end s t rest)
unfolding parse_vector parse_vector_literal
parse_vector-Keeps end s t rest i =
    Extends-Keeps s (first_element t rest end s.program (skip_blanks rest)) i
      (first_element-Extends t rest end s.program (skip_blanks rest) i.program)

parse_empty_vector-Keeps :
    (s : ParseState) (t : RewriteToken) (type : ScalarType) (rest : List RewriteToken)
    → InsideState s
    → Keeps (parse_empty_vector s t type rest)
unfolding parse_empty_vector
parse_empty_vector-Keeps s t type [] i = ended-Keeps _ i.program
parse_empty_vector-Keeps s t type (u ∷ []) i = ended-Keeps _ i.program
parse_empty_vector-Keeps s t type (u ∷ w ∷ rest) i =
    if-Keeps _ _ _ (complete_node-Keeps s _ rest refl i) (ended-Keeps _ i.program)

open_fanout-Keeps :
    (end : RewritePosition) (s : ParseState) (t : RewriteToken) (rest : List RewriteToken)
    → InsideState s
    → Keeps (open_fanout end s t rest)
unfolding open_fanout Keeps
open_fanout-Keeps end s t [] i = ground (arith, i.program)
open_fanout-Keeps end s t (u ∷ rest) i =
    ground (arith, i.program, open_context-Keeps s _ rest refl i)

open_prefix-Keeps :
    (end : RewritePosition) (s : ParseState) (t separator : RewriteToken) (rest : List RewriteToken)
    → InsideState s
    → Keeps (open_prefix end s t separator rest)
unfolding open_prefix
open_prefix-Keeps end s t separator [] i = ended-Keeps _ i.program
open_prefix-Keeps end s t separator (u ∷ rest) i =
    if-Keeps _ _ _ (ended-Keeps _ i.program) (open_context-Keeps s _ (u ∷ rest) refl i)

open_call-Keeps :
    (end : RewritePosition) (s : ParseState) (t : RewriteToken) (rest : List RewriteToken)
    → InsideState s
    → Keeps (open_call end s t rest)
unfolding open_call
open_call-Keeps end s t [] i = complete_node-Keeps s _ [] refl i
open_call-Keeps end s t (u ∷ rest) i =
    if-Keeps _ _ _ (open_context-Keeps s _ (skip_blanks rest) refl i) (
      if-Keeps _ _ _ (open_prefix-Keeps end s t u rest i)
        (complete_node-Keeps s _ (u ∷ rest) refl i))

parse_name-Keeps :
    (end : RewritePosition) (s : ParseState) (t : RewriteToken) (rest : List RewriteToken)
    → InsideState s
    → Keeps (parse_name end s t rest)
unfolding parse_name
parse_name-Keeps end s t rest i =
    elim (Option-cases (find_parameter s.program (rewrite_token_spelling s.program.source t))) [
      | inl undeclared ↦
          rw (undeclared, parse_name)
            (if-Keeps _ _ _ (open_fanout-Keeps end s t rest i) (open_call-Keeps end s t rest i))
      | inr ((declaration, index), found) ↦
          rw (found, parse_name)
            (if-Keeps _ _ _ (open_fanout-Keeps end s t rest i) (
              if-Keeps _ _ _ (complete_node-Keeps s _ rest refl i)
                (open_call-Keeps end s t rest i)))
    ]

parse_placeholder-Keeps :
    (s : ParseState) (t : RewriteToken) (rest : List RewriteToken)
    → InsideState s
    → Keeps (parse_placeholder s t rest)
unfolding parse_placeholder
parse_placeholder-Keeps s t rest i = elim (Option-cases (fanout_operand s.contexts)) [
  | inl missing ↦ rw (missing, parse_placeholder) (ended-Keeps _ i.program)
  | inr (operand, found) ↦ rw (found, parse_placeholder) (complete_node-Keeps s _ rest refl i)
]

pub parse_token-Keeps :
    (end : RewritePosition) (s : ParseState) (t : RewriteToken) (rest : List RewriteToken)
    → InsideState s
    → Keeps (parse_token end s t rest)
unfolding parse_token refuse_header refuse_token
parse_token-Keeps end s t rest i = elim (Option-cases (parameter_type t.kind)) [
  | inl untyped ↦
      rw (untyped, parse_token)
        (if-Keeps _ _ _ (ended-Keeps _ i.program) (
          if-Keeps _ _ _ (complete_node-Keeps s _ rest refl i) (
            if-Keeps _ _ _ (open_context-Keeps s _ (skip_blanks rest) refl i) (
              if-Keeps _ _ _ (parse_vector-Keeps end s t rest i) (
                if-Keeps _ _ _ (parse_name-Keeps end s t rest i) (
                  if-Keeps _ _ _ (parse_placeholder-Keeps s t rest i)
                    (ended-Keeps _ i.program)))))))
  | inr (type, typed) ↦
      rw (typed, parse_token)
        (if-Keeps _ _ _ (ended-Keeps _ i.program) (
          if-Keeps _ _ _ (complete_node-Keeps s _ rest refl i) (
            if-Keeps _ _ _ (open_context-Keeps s _ (skip_blanks rest) refl i) (
              if-Keeps _ _ _ (parse_vector-Keeps end s t rest i)
                (parse_empty_vector-Keeps s t type rest i)))))
]
