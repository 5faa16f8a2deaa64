-- ===== src/Parser/Branches.antt =====
-- The verdict of `finish_fanout_branch` of src/rewrite.cpp on a branch.
use bennu.Prelude.{
  ℕ, ◌<◌, ◌≡◌, ◌≢◌, ◌⊎◌, inl, inr, refl, sym, true, false, List, [], ◌∷◌, none, some, length,
  Bool-cases, arith, ◌==◌, nat_eq,
}
use mathlib.Core.Path.{subst}
use bennu.Tokenizer.Types.{RewriteSpan}
use bennu.Parser.Types.{
  RewriteContext, RewriteParseError, RewriteNodeKind, primitive_call, node_at, push, refused,
  insertion_span, expected_branch_body, branch_root_not_primitive_call, placeholder_count,
  placeholder_owned_position,
}
use bennu.Parser.Spans.{span_to}
use bennu.Parser.Finish.{
  Inspection, inspect_branch_placeholder, ParseState, Next, go_on, ended, give_argument, is_call,
  finish_branch_root, finish_fanout_branch,
}
use bennu.Parser.Ordered.{AllBelow, Ordered}
use bennu.Parser.Placeholders.{
  Place, Holds, seen, all_seen, all_seen-count, all_seen-first, inspect-Finds,
}

-- The refusal of a branch.
abbrev pub branch_refused :
    ParseState → RewriteContext → RewriteSpan → RewriteParseError → RewriteSpan → Next
branch_refused s branch closing error primary = ended (
    refused s.program error primary (span_to branch.opening_span.begin closing.end)
      branch.opening_span)

-- The branch with its root and its placeholder goes into the program, and its root to the fanout.
abbrev pub branch_added :
    ParseState → List RewriteContext → RewriteContext → RewriteSpan → ℕ → RewriteSpan → Next
branch_added s outer branch closing root placeholder = go_on (record s {
  contexts = give_argument outer root;
  program = record s.program {
    fanout_branches = push s.program.fanout_branches (record {
      span = span_to branch.opening_span.begin closing.end;
      opening_span = branch.opening_span;
      closing_span = closing;
      body_span = (node_at s.program root).span;
      placeholder_span = placeholder;
      root = root;
    });
  };
})

-- The place to which a refusal for the count of placeholders points.
abbrev pub first_place : List Place → RewriteSpan → RewriteSpan
first_place [] span = span
first_place (place ∷ places) span = place.span

-- The verdict on a branch whose root holds the placeholders: the root is to be a call, and to hold
-- exactly one placeholder, which is not inside a tuple.
abbrev pub Verdict :
    ParseState → List RewriteContext → RewriteContext → RewriteSpan → ℕ → List Place → Next → Type 0
Verdict s outer branch closing root places next =
    ((node_at s.program root).kind ≢ primitive_call
      × (next
          ≡ branch_refused s branch closing branch_root_not_primitive_call
              (node_at s.program root).span))
    ⊎ ((node_at s.program root).kind ≡ primitive_call
        × (((length places ≢ 1)
              × (next
                  ≡ branch_refused s branch closing placeholder_count
                      (first_place places (node_at s.program root).span)))
            ⊎ ((place : Place) × (places ≡ place ∷ [])
                × (((place.owned ≡ true)
                      × (next
                          ≡ branch_refused s branch closing placeholder_owned_position place.span))
                    ⊎ ((place.owned ≡ false)
                        × (next ≡ branch_added s outer branch closing root place.span))))))

is_call-kind : (kind : RewriteNodeKind) → is_call kind ≡ true → kind ≡ primitive_call
is_call-kind kind h = ground arith

abbrev nothing_seen : Inspection
nothing_seen = record { count = 0; first_span = none; has_owned_position = false }

module _ (s : ParseState) (outer : List RewriteContext) (branch : RewriteContext)
    (closing : RewriteSpan) (root : ℕ) where
  abbrev walked : Inspection
  walked = inspect_branch_placeholder (length s.program.nodes) s.program false root nothing_seen

  counted-Verdict :
      (places : List Place)
      → walked ≡ all_seen nothing_seen places
      → (node_at s.program root).kind ≡ primitive_call
      → Verdict s outer branch closing root places (finish_branch_root s outer branch root closing)
  unfolding finish_branch_root all_seen
  counted-Verdict [] same call =
      inr (call, inl (λ e. absurd cc, rw (finish_branch_root, call, same) refl))
  counted-Verdict (place ∷ []) same call = inr (
    call,
    inr (
      place,
      refl,
      elim (Bool-cases place.owned) [
        | inl owned ↦ inl (owned, rw (finish_branch_root, call, same, owned) refl)
        | inr free ↦ inr (free, rw (finish_branch_root, call, same, free) refl)
      ],
    ),
  )
  counted-Verdict (place ∷ second ∷ places) same call =
      let all = place ∷ second ∷ places in
      let count = all_seen-count nothing_seen all in
      let several : ((all_seen nothing_seen all).count == 1) ≡ false = ground (arith, count) in
      let first : (all_seen nothing_seen all).first_span ≡ some place.span =
        all_seen-first (seen nothing_seen place) (second ∷ places) place.span refl in
      inr (
        call,
        inl (
          λ one. absurd (omega (arith, one)),
          rw (finish_branch_root, call, same, several, first) refl,
        ),
      )

  finish_branch_root-Verdict :
      Ordered s.program
      → root < length s.program.nodes
      → (places : List Place) × Holds s.program false root places
        × Verdict s outer branch closing root places
            (finish_branch_root s outer branch root closing)
  unfolding finish_branch_root
  finish_branch_root-Verdict o inside =
      let (places, holds, same) =
        inspect-Finds s.program o (length s.program.nodes) false root inside in
      (
        places,
        holds,
        elim (Bool-cases (is_call (node_at s.program root).kind)) [
          | inl call ↦
              counted-Verdict places (same nothing_seen)
                (is_call-kind (node_at s.program root).kind call)
          | inr other ↦ inl (λ call. ground arith, rw (finish_branch_root, other) refl)
        ],
      )

pending-cases :
    (pending : List ℕ)
    → (pending ≡ []) ⊎ ((root : ℕ) × (others : List ℕ) × (pending ≡ root ∷ others))
pending-cases [] = inl refl
pending-cases (root ∷ others) = inr (root, others, refl)

-- A branch that ends, in a program whose nodes stand behind what they refer to and hold those that
-- wait in the branch: without a body it is refused. Else the placeholders that its root holds decide:
-- it is refused where the root is no call, where the placeholders are not exactly one, and where the
-- one is inside a tuple; and otherwise the branch is added with its root and its placeholder's place.
pub finish_fanout_branch-Verdict :
    (s : ParseState) (outer : List RewriteContext) (branch : RewriteContext) (closing : RewriteSpan)
    → Ordered s.program
    → AllBelow (length s.program.nodes) branch.pending
    → ((branch.pending ≡ [])
        × (finish_fanout_branch s outer branch closing
            ≡ branch_refused s branch closing expected_branch_body (insertion_span closing.begin)))
      ⊎ ((root : ℕ) × (others : List ℕ) × (branch.pending ≡ root ∷ others)
          × (places : List Place) × Holds s.program false root places
          × Verdict s outer branch closing root places
              (finish_fanout_branch s outer branch closing))
unfolding finish_fanout_branch
finish_fanout_branch-Verdict s outer branch closing o waits = elim (pending-cases branch.pending) [
  | inl is_empty ↦ inl (is_empty, rw (finish_fanout_branch, is_empty) refl)
  | inr (root, others, waiting) ↦
      let same : finish_fanout_branch s outer branch closing
          ≡ finish_branch_root s outer branch root closing =
        rw (finish_fanout_branch, waiting) refl in
      let below : AllBelow (length s.program.nodes) (root ∷ others) = rw waiting at waits in
      let (places, holds, verdict) =
        finish_branch_root-Verdict s outer branch closing root o below.0 in
      inr (
        root,
        others,
        waiting,
        places,
        holds,
        subst (λ (next : Next). Verdict s outer branch closing root places next) (sym same) verdict,
      )
]
