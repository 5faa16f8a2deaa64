-- ===== src/Tests/Parser.antt =====
-- The parser of src/rewrite.cpp on texts.
use mathlib.Core.Path.{subst}
use mathlib.Core.Option.{some-injective}
use bennu.Scalar.Types.{boolean}
use bennu.Prelude.{
  ℕ, zero, suc, arith, refl, List, ◌≡◌, ◌⊎◌, true, false, [], ◌∷◌, All, some, none, codes, Bytes,
}
use bennu.Tokenizer.Scan.{DoubleParser, converted, start}
use bennu.Tokenizer.Types.{RewriteSpan}
use bennu.Parser.Types.{
  RewriteParseResult, RewriteProgram, RewriteCall, RewriteNode, RewriteContext, bracketed,
  plain_node, placeholder_node, primitive_call, fanout_branch, expected_branch_body, insertion_span,
}
use bennu.Parser.Loop.{parse_rewrite, empty_program}
use bennu.Parser.Inside.{Inside}
use bennu.Parser.References.{parse_rewrite-Inside}
use bennu.Parser.Finish.{ParseState, finish_fanout_branch}
use bennu.Parser.Ordered.{Ordered, IsBehind, plain-IsBehind, call-IsBehind}
use bennu.Parser.Placeholders.{Place, Holds}
use bennu.Parser.Branches.{branch_refused, Verdict, finish_fanout_branch-Verdict}
use bennu.Parser.Resolve.{resolve_rewrite_primitives}
use bennu.Parser.Resolved.{FreeNames, Named, Known, resolve_rewrite_primitives-cases}

-- A conversion that reads no byte.
abbrev parser : DoubleParser
parser = λ spelling. record { converted_value = 0; converted_size = 0; error = converted }

-- A header, nested calls, a vector, a tuple and a fanout.
abbrev text : Bytes
text = codes "parameters[x Int]\nadd[x inc 2]\n[1 (2 3)]\nfanout[x {add[_ 1]} {inc[_]}]"

parse_rewrite-Inside_example :
    (result : RewriteParseResult) × (parse_rewrite parser text ≡ some result)
    × Inside result.program
parse_rewrite-Inside_example = parse_rewrite-Inside parser text

abbrev name_span : RewriteSpan
name_span = record { begin = start; end = record { offset = 4; line = 1; column = 4 } }

abbrev call : RewriteCall
call = record {
  syntax = bracketed;
  name_span = name_span;
  opening_delimiter_span = name_span;
  closing_delimiter_span = name_span;
  prefix_separator_span = name_span;
  span = name_span;
  first_argument = 0;
  argument_count = 0;
  primitive = none;
}

-- The branch `{f[_]}`: its placeholder is node 0 and its root node 1.
abbrev placeholder : RewriteNode
placeholder = plain_node placeholder_node name_span boolean

abbrev root : RewriteNode
root = plain_node primitive_call name_span boolean

abbrev branch_program : RewriteProgram
branch_program = record (empty_program (codes "f[_]")) {
  nodes = placeholder ∷ root ∷ [];
  calls = record call { argument_count = 1 } ∷ [];
  arguments = 0 ∷ [];
}

branch_program-Ordered : Ordered branch_program
branch_program-Ordered zero node e =
    subst (λ n. IsBehind branch_program 0 n) (some-injective _ _ e)
      (plain-IsBehind branch_program 0 placeholder refl)
branch_program-Ordered (suc zero) node e =
    subst (λ n. IsBehind branch_program 1 n) (some-injective _ _ e)
      (call-IsBehind branch_program 1 root (record call { argument_count = 1 }) [] (0 ∷ []) [] refl
        refl refl refl refl refl (omega arith, tt))
branch_program-Ordered (suc (suc index)) node e = absurd cc

abbrev branch_state : ParseState
branch_state = record { tokens = []; contexts = []; program = branch_program; completed = none }

abbrev branch_context : RewriteContext
branch_context = record {
  kind = fanout_branch;
  name_span = name_span;
  opening_span = name_span;
  separator_span = name_span;
  pending = 1 ∷ [];
  opening_tokens = [];
  after_argument = true;
}

finish_fanout_branch-Verdict_example :
    let next = finish_fanout_branch branch_state [] branch_context name_span in
    ((branch_context.pending ≡ [])
      × (next
          ≡ branch_refused branch_state branch_context name_span expected_branch_body
              (insertion_span name_span.begin)))
    ⊎ ((root : ℕ) × (others : List ℕ) × (branch_context.pending ≡ root ∷ others)
        × (places : List Place) × Holds branch_program false root places
        × Verdict branch_state [] branch_context name_span root places next)
finish_fanout_branch-Verdict_example =
    finish_fanout_branch-Verdict branch_state [] branch_context name_span branch_program-Ordered
      (omega arith, tt)

-- A program with one call, of `add`.
abbrev program : RewriteProgram
program = record (empty_program (codes "add[]")) { calls = call ∷ [] }

resolve_rewrite_primitives-cases_example :
    let r = resolve_rewrite_primitives program in
    ((r.0.ok ≡ true) × FreeNames [] [] × All (Named program.source) r.1.calls × All Known [])
    ⊎ ((r.0.ok ≡ false) × (r.1 ≡ program))
resolve_rewrite_primitives-cases_example = resolve_rewrite_primitives-cases program
