-- ===== src/Parser/Ends.antt =====
-- The tokens that a pass of the loop of `parse_rewrite` of src/rewrite.cpp reads: the tokens that begin
-- an expression.
use bennu.Prelude.{
  ℕ, suc, ◌+◌, ◌*◌, ◌≤◌, ◌≡◌, inl, inr, Bool, Option-cases, true, false, List, [], ◌∷◌, none, some,
  length, if◌then◌else◌, nat_eq, bytes_eq, arith,
}
use bennu.Scalar.Types.{ScalarType, scalar_type_eq}
use bennu.Tokenizer.Types.{RewritePosition, RewriteToken}
use bennu.Parser.Types.{RewriteProgram, RewriteParseResult, scalar_token_type}
use bennu.Parser.Spans.{skip_blanks, parameter_type}
use bennu.Parser.Vector.{
  Parsed, completed, refusal, VectorLiteral, vector_loop, first_element, parse_vector_literal,
  append_vector_element, vector_payload_size, vector_unclosed, vector_mismatch, vector_refusal,
}
use bennu.Parser.Finish.{ParseState, Next, go_on, ended}
use bennu.Parser.Atoms.{
  complete_with, parse_token, parse_name, parse_vector, parse_placeholder, parse_empty_vector,
  open_call, open_prefix, open_fanout, refuse_header, refuse_token,
}

pub length-skip_blanks : (tokens : List RewriteToken) → length (skip_blanks tokens) ≤ length tokens
unfolding skip_blanks
length-skip_blanks [] = omega arith
length-skip_blanks (t ∷ tokens) = ground (arith, length-skip_blanks tokens)

-- The passes that a state still leaves room for.
abbrev pub measure : ParseState → ℕ
measure s = length s.tokens * 2 + (elim s.completed [ none ↦ 0 | some node ↦ 1 ])

-- A pass that goes on leaves a state of at most the measure.
unfoldable pub Within : ℕ → Next → Type 0
Within bound (go_on s) = measure s ≤ bound
Within bound (ended result) = Unit

unfoldable Leaves : ℕ → Parsed → Type 0
Leaves bound (completed program node rest) = length rest ≤ bound
Leaves bound (refusal result) = Unit

refusal-Leaves : (bound : ℕ) (result : RewriteParseResult) → Leaves bound (refusal result)
unfolding Leaves
refusal-Leaves bound result = tt

if-Leaves :
    (b : Bool) (bound : ℕ) (x y : Parsed)
    → Leaves bound x
    → Leaves bound y
    → Leaves bound (if b then x else y)
if-Leaves true bound x y l r = l
if-Leaves false bound x y l r = r

weaken-Leaves : (low high : ℕ) (x : Parsed) → low ≤ high → Leaves low x → Leaves high x
unfolding Leaves
weaken-Leaves low high (completed program node rest) h l = omega (arith, h, l)
weaken-Leaves low high (refusal result) h l = tt

pub ended-Within : (bound : ℕ) (result : RewriteParseResult) → Within bound (ended result)
unfolding Within
ended-Within bound result = tt

pub go_on-Within : (bound : ℕ) (s : ParseState) → measure s ≤ bound → Within bound (go_on s)
unfolding Within
go_on-Within bound s h = h

pub if-Within :
    (b : Bool) (bound : ℕ) (x y : Next)
    → Within bound x
    → Within bound y
    → Within bound (if b then x else y)
if-Within true bound x y l r = l
if-Within false bound x y l r = r

pub weaken-Within : (low high : ℕ) (x : Next) → low ≤ high → Within low x → Within high x
unfolding Within
weaken-Within low high (go_on s) h l = omega (arith, h, l)
weaken-Within low high (ended result) h l = tt

completed-Leaves :
    (bound : ℕ) (program : RewriteProgram) (node : ℕ) (rest : List RewriteToken)
    → length rest ≤ bound
    → Leaves bound (completed program node rest)
unfolding Leaves
completed-Leaves bound program node rest h = h

module _ (literal : VectorLiteral) where
  vector_loop-Leaves :
      (separated : Bool) (count : ℕ) (program : RewriteProgram) (tokens : List RewriteToken)
      → Leaves (length tokens) (vector_loop literal separated count program tokens)
  unfolding vector_loop vector_unclosed vector_mismatch vector_refusal Leaves
  vector_loop-Leaves separated count program [] = tt
  vector_loop-Leaves separated count program (t ∷ rest) =
      let later : (separated : Bool) (count : ℕ) (program : RewriteProgram)
          → Leaves (suc (length rest)) (vector_loop literal separated count program rest) =
        λ separated count program.
          weaken-Leaves (length rest) (suc (length rest))
            (vector_loop literal separated count program rest) (omega arith)
            (vector_loop-Leaves separated count program rest) in
      let appended = append_vector_element program t literal.element_type in
      ground (arith, later true count program, later false (count + 1) appended)

first_element-Leaves :
    (opening : RewriteToken) (all : List RewriteToken) (end : RewritePosition)
    (program : RewriteProgram) (tokens : List RewriteToken)
    → Leaves (length tokens) (first_element opening all end program tokens)
unfolding first_element vector_unclosed vector_mismatch vector_refusal Leaves
first_element-Leaves opening all end program [] = tt
first_element-Leaves opening all end program (t ∷ rest) =
    let loop =
      vector_loop-Leaves
        (record {
          opening = opening;
          tokens = all;
          end = end;
          element_type = scalar_token_type t.kind;
          first_element = vector_payload_size program (scalar_token_type t.kind);
          first_element_span = length program.vector_element_spans;
        })
        true 0 program (t ∷ rest) in
    ground (arith, loop)

parse_vector_literal-Leaves :
    (opening : RewriteToken) (tokens : List RewriteToken) (end : RewritePosition)
    (program : RewriteProgram)
    → Leaves (length tokens) (parse_vector_literal opening tokens end program)
unfolding parse_vector_literal
parse_vector_literal-Leaves opening tokens end program =
    weaken-Leaves (length (skip_blanks tokens)) (length tokens) _ (length-skip_blanks tokens)
      (first_element-Leaves opening tokens end program (skip_blanks tokens))

parse_placeholder-Within :
    (s : ParseState) (t : RewriteToken) (rest : List RewriteToken)
    → Within (length rest * 2 + 1) (parse_placeholder s t rest)
unfolding parse_placeholder Within
parse_placeholder-Within s t rest = ground arith

open_fanout-Within :
    (end : RewritePosition) (s : ParseState) (t : RewriteToken) (rest : List RewriteToken)
    → s.completed ≡ none
    → Within (length rest * 2 + 1) (open_fanout end s t rest)
unfolding open_fanout
open_fanout-Within end s t [] e = if-Within _ _ _ _ (ended-Within _ _) (ended-Within _ _)
open_fanout-Within end s t (u ∷ rest) e =
    if-Within _ _ _ _ (ended-Within _ _)
      (if-Within _ _ _ _ (go_on-Within _ _ (rw e (omega arith))) (ended-Within _ _))

Parsed-Within :
    (s : ParseState) (bound : ℕ) (p : Parsed)
    → Leaves bound p
    → Within (bound * 2 + 1) (elim p as (λ x. Next) [
      | completed program node tokens ↦ complete_with s program node tokens
      | refusal result ↦ ended result
    ])
unfolding Leaves
Parsed-Within s bound (completed program node tokens) l = go_on-Within _ _ (omega (arith, l))
Parsed-Within s bound (refusal result) l = ended-Within _ _

parse_vector-Within :
    (end : RewritePosition) (s : ParseState) (t : RewriteToken) (rest : List RewriteToken)
    → Within (length rest * 2 + 1) (parse_vector end s t rest)
unfolding parse_vector
parse_vector-Within end s t rest =
    Parsed-Within s (length rest) (parse_vector_literal t rest end s.program)
      (parse_vector_literal-Leaves t rest end s.program)

parse_empty_vector-Within :
    (s : ParseState) (t : RewriteToken) (type : ScalarType) (rest : List RewriteToken)
    → Within (length rest * 2 + 1) (parse_empty_vector s t type rest)
unfolding parse_empty_vector Within
parse_empty_vector-Within s t type [] = tt
parse_empty_vector-Within s t type (u ∷ []) = tt
parse_empty_vector-Within s t type (u ∷ w ∷ rest) = ground arith

open_prefix-Within :
    (end : RewritePosition) (s : ParseState) (t separator : RewriteToken) (rest : List RewriteToken)
    → s.completed ≡ none
    → Within (length rest * 2 + 1) (open_prefix end s t separator rest)
unfolding open_prefix
open_prefix-Within end s t separator [] e = ended-Within _ _
open_prefix-Within end s t separator (u ∷ rest) e =
    if-Within _ _ _ _ (ended-Within _ _) (go_on-Within _ _ (rw e (omega arith)))

open_call-Within :
    (end : RewritePosition) (s : ParseState) (t : RewriteToken) (rest : List RewriteToken)
    → s.completed ≡ none
    → Within (length rest * 2 + 1) (open_call end s t rest)
unfolding open_call
open_call-Within end s t [] e = go_on-Within _ _ (omega arith)
open_call-Within end s t (u ∷ rest) e =
    if-Within _ _ _ _ (go_on-Within _ _ (rw e (omega (arith, length-skip_blanks rest)))) (
      if-Within _ _ _ _
        (weaken-Within (length rest * 2 + 1) _ (open_prefix end s t u rest) (omega arith)
          (open_prefix-Within end s t u rest e))
        (go_on-Within _ _ (omega arith)))

parse_name-Within :
    (end : RewritePosition) (s : ParseState) (t : RewriteToken) (rest : List RewriteToken)
    → s.completed ≡ none
    → Within (length rest * 2 + 1) (parse_name end s t rest)
unfolding parse_name Within
parse_name-Within end s t rest e =
    ground (arith, e, open_fanout-Within end s t rest e, open_call-Within end s t rest e)

pub parse_token-Within :
    (end : RewritePosition) (s : ParseState) (t : RewriteToken) (rest : List RewriteToken)
    → s.completed ≡ none
    → Within (length rest * 2 + 1) (parse_token end s t rest)
unfolding parse_token refuse_header refuse_token Within
parse_token-Within end s t rest e = elim (Option-cases (parameter_type t.kind)) [
  | inl untyped ↦ ground (
    arith,
    e,
    untyped,
    length-skip_blanks rest,
    parse_vector-Within end s t rest,
    parse_name-Within end s t rest e,
    parse_placeholder-Within s t rest,
  )
  | inr (type, typed) ↦ ground (
    arith,
    e,
    typed,
    length-skip_blanks rest,
    parse_vector-Within end s t rest,
    parse_empty_vector-Within s t type rest,
  )
]
