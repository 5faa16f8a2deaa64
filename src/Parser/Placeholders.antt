-- ===== src/Parser/Placeholders.antt =====
-- The placeholders of a branch, which `finish_fanout_branch` of src/rewrite.cpp looks for with
-- `inspect_branch_placeholder`.
use bennu.Prelude.{
  ℕ, zero, suc, ◌+◌, ◌<◌, ◌≡◌, ◌≢◌, ◌⊎◌, inl, inr, refl, ap, sym, ◌∙◌, Bool, true, ◌||◌, List, [],
  ◌∷◌, ◌++◌, some, length, get_elem?, Option-cases, arith, nat_eq,
}
use mathlib.Core.Path.{subst}
use bennu.Tokenizer.Types.{RewriteSpan}
use bennu.Parser.Types.{
  RewriteProgram, RewriteNode, RewriteNodeKind, primitive_call, tuple_literal, node_at,
  scalar_literal, vector_literal, parameter_reference, unresolved_name, placeholder_node,
  fanout_node,
}
use bennu.Parser.Finish.{
  Inspection, inspect_each, inspect_branch_placeholder, call_arguments, slice, first_or,
}
use bennu.Parser.Ordered.{AllBelow, IsBehind, Ordered, plain-IsBehind}

-- A placeholder: where it stands, and whether that is inside a tuple.
pub record Place : Type 0 where
  pub span : RewriteSpan
  pub owned : Bool

mutual
  -- The placeholders below a node, from left to right: below a call those of its arguments, and below
  -- a tuple those of its elements, which are inside a tuple.
  pub data Holds (p : RewriteProgram) : Bool → ℕ → List Place → Type 0 where
    is_placeholder :
        {owned : Bool} {index : ℕ}
        → (node_at p index).kind ≡ placeholder_node
        → Holds p owned index (record { span = (node_at p index).span; owned = owned } ∷ [])
    in_call :
        {owned : Bool} {index : ℕ} {places : List Place}
        → (node_at p index).kind ≡ primitive_call
        → HoldEach p owned (call_arguments p (node_at p index).call_index) places
        → Holds p owned index places
    in_tuple :
        {owned : Bool} {index : ℕ} {places : List Place}
        → (node_at p index).kind ≡ tuple_literal
        → HoldEach p true
            (slice p.tuple_elements (node_at p index).first_element (node_at p index).element_count)
            places
        → Holds p owned index places
    in_other :
        {owned : Bool} {index : ℕ}
        → (node_at p index).kind ≢ placeholder_node
        → (node_at p index).kind ≢ primitive_call
        → (node_at p index).kind ≢ tuple_literal
        → Holds p owned index []

  pub data HoldEach (p : RewriteProgram) : Bool → List ℕ → List Place → Type 0 where
    in_none : {owned : Bool} → HoldEach p owned [] []
    in_first :
        {owned : Bool} {index : ℕ} {indexes : List ℕ} {here others : List Place}
        → Holds p owned index here
        → HoldEach p owned indexes others
        → HoldEach p owned (index ∷ indexes) (here ++ others)

-- What the walk has found behind some places.
abbrev pub seen : Inspection → Place → Inspection
seen found place = record {
  count = found.count + 1;
  first_span = some (first_or found.first_span place.span);
  has_owned_position = found.has_owned_position || place.owned;
}

unfoldable pub all_seen : Inspection → List Place → Inspection
all_seen found [] = found
all_seen found (place ∷ places) = all_seen (seen found place) places

all_seen-++ :
    (found : Inspection) (places others : List Place)
    → all_seen found (places ++ others) ≡ all_seen (all_seen found places) others
unfolding all_seen
all_seen-++ found [] others = refl
all_seen-++ found (place ∷ places) others = all_seen-++ (seen found place) places others

pub all_seen-count :
    (found : Inspection) (places : List Place)
    → (all_seen found places).count ≡ found.count + length places
unfolding all_seen
all_seen-count found [] = omega arith
all_seen-count found (place ∷ places) = omega (arith, all_seen-count (seen found place) places)

pub all_seen-first :
    (found : Inspection) (places : List Place) (first : RewriteSpan)
    → found.first_span ≡ some first
    → (all_seen found places).first_span ≡ some first
unfolding all_seen
all_seen-first found [] first e = e
all_seen-first found (place ∷ places) first e =
    all_seen-first (seen found place) places first (rw e refl)

RewriteNodeKind-cases :
    (kind : RewriteNodeKind)
    → (kind ≡ primitive_call)
      ⊎ ((kind ≡ tuple_literal)
          ⊎ ((kind ≡ placeholder_node)
              ⊎ ((kind ≢ placeholder_node) × (kind ≢ primitive_call) × (kind ≢ tuple_literal))))
RewriteNodeKind-cases primitive_call = inl refl
RewriteNodeKind-cases tuple_literal = inr (inl refl)
RewriteNodeKind-cases scalar_literal =
    inr (inr (inr (λ e. absurd cc, λ e. absurd cc, λ e. absurd cc)))
RewriteNodeKind-cases vector_literal =
    inr (inr (inr (λ e. absurd cc, λ e. absurd cc, λ e. absurd cc)))
RewriteNodeKind-cases parameter_reference =
    inr (inr (inr (λ e. absurd cc, λ e. absurd cc, λ e. absurd cc)))
RewriteNodeKind-cases unresolved_name =
    inr (inr (inr (λ e. absurd cc, λ e. absurd cc, λ e. absurd cc)))
RewriteNodeKind-cases placeholder_node = inr (inr (inl refl))
RewriteNodeKind-cases fanout_node = inr (inr (inr (λ e. absurd cc, λ e. absurd cc, λ e. absurd cc)))

get_elem?-below :
    {A : Type 0} (xs : List A) (i : ℕ) {a : A} → get_elem? xs i ≡ some a → i < length xs
get_elem?-below [] i e = absurd cc
get_elem?-below (x ∷ xs) zero e = omega arith
get_elem?-below (x ∷ xs) (suc i) e = omega (arith, get_elem?-below xs i e)

module _ (p : RewriteProgram) where
  inspect-placeholder :
      (fuel : ℕ) (owned : Bool) (index : ℕ) (found : Inspection)
      → (node_at p index).kind ≡ placeholder_node
      → inspect_branch_placeholder (suc fuel) p owned index found
        ≡ seen found (record { span = (node_at p index).span; owned = owned })
  unfolding inspect_branch_placeholder
  inspect-placeholder fuel owned index found h = rw (inspect_branch_placeholder, h) refl

  inspect-other :
      (fuel : ℕ) (owned : Bool) (index : ℕ) (found : Inspection)
      → (node_at p index).kind ≢ placeholder_node
      → (node_at p index).kind ≢ primitive_call
      → (node_at p index).kind ≢ tuple_literal
      → inspect_branch_placeholder (suc fuel) p owned index found ≡ found
  unfolding inspect_branch_placeholder
  inspect-other fuel owned index found a b c = ground arith

  inspect-call :
      (fuel : ℕ) (owned : Bool) (index : ℕ) (found : Inspection)
      → (node_at p index).kind ≡ primitive_call
      → inspect_branch_placeholder (suc fuel) p owned index found
        ≡ inspect_each
            (inspect_branch_placeholder fuel p owned)
            (call_arguments p (node_at p index).call_index)
            found
  unfolding inspect_branch_placeholder
  inspect-call fuel owned index found h = rw (inspect_branch_placeholder, h) refl

  inspect-tuple :
      (fuel : ℕ) (owned : Bool) (index : ℕ) (found : Inspection)
      → (node_at p index).kind ≡ tuple_literal
      → inspect_branch_placeholder (suc fuel) p owned index found
        ≡ inspect_each
            (inspect_branch_placeholder fuel p true)
            (slice p.tuple_elements (node_at p index).first_element (node_at p index).element_count)
            found
  unfolding inspect_branch_placeholder
  inspect-tuple fuel owned index found h = rw (inspect_branch_placeholder, h) refl

  node_at-IsBehind : Ordered p → (index : ℕ) → IsBehind p index (node_at p index)
  unfolding node_at
  node_at-IsBehind o index = elim (Option-cases (get_elem? p.nodes index)) [
    | inl outside ↦ plain-IsBehind p index (node_at p index) (rw (node_at, outside) refl)
    | inr (node, found) ↦
        let same : node_at p index ≡ node = rw (node_at, found) refl in
        subst (λ (n : RewriteNode). IsBehind p index n) (sym same) (o index node found)
  ]

  arguments-below :
      Ordered p
      → (index : ℕ) → (node_at p index).kind ≡ primitive_call
      → AllBelow index (call_arguments p (node_at p index).call_index)
  unfolding call_arguments
  arguments-below o index h =
      let (c, found, inside, below) = (node_at-IsBehind o index).call h in
      rw (call_arguments, found) below

  -- The walk below a node finds the placeholders that the node holds.
  abbrev pub Finds : (Inspection → Inspection) → Bool → ℕ → Type 0
  Finds inspect owned index =
      (places : List Place) × Holds p owned index places
      × ((found : Inspection) → inspect found ≡ all_seen found places)

  inspect_each-Finds :
      (inspect : ℕ → Inspection → Inspection) (owned : Bool) (n : ℕ) (indexes : List ℕ)
      → AllBelow n indexes
      → ((i : ℕ) → i < n → Finds (inspect i) owned i)
      → (places : List Place) × HoldEach p owned indexes places
        × ((found : Inspection) → inspect_each inspect indexes found ≡ all_seen found places)
  unfolding inspect_each all_seen
  inspect_each-Finds inspect owned n [] below finds = ([], in_none, λ found. refl)
  inspect_each-Finds inspect owned n (i ∷ indexes) below finds =
      let (here, holds, same) = finds i below.0 in
      let (others, hold, rest) = inspect_each-Finds inspect owned n indexes below.1 finds in
      (
        here ++ others,
        in_first holds hold,
        λ found.
            ap (inspect_each inspect indexes) (same found)
            ∙ rest (all_seen found here)
            ∙ sym (all_seen-++ found here others),
      )

  pub inspect-Finds :
      Ordered p
      → (fuel : ℕ) (owned : Bool) (index : ℕ) → index < fuel
      → Finds (inspect_branch_placeholder fuel p owned index) owned index
  unfolding all_seen
  inspect-Finds o zero owned index h = absurd (omega arith)
  inspect-Finds o (suc fuel) owned index h = elim (RewriteNodeKind-cases (node_at p index).kind) [
    | inl call ↦
        let (places, hold, same) =
          inspect_each-Finds (inspect_branch_placeholder fuel p owned) owned index _
            (arguments-below o index call)
            (λ i before. inspect-Finds o fuel owned i (omega arith)) in
        (places, in_call call hold, λ found. inspect-call fuel owned index found call ∙ same found)
    | inr (inl tuple) ↦
        let (places, hold, same) =
          inspect_each-Finds (inspect_branch_placeholder fuel p true) true index _
            ((node_at-IsBehind o index).elements tuple).1
            (λ i before. inspect-Finds o fuel true i (omega arith)) in
        (
          places,
          in_tuple tuple hold,
          λ found. inspect-tuple fuel owned index found tuple ∙ same found,
        )
    | inr (inr (inl here)) ↦ (
      record { span = (node_at p index).span; owned = owned } ∷ [],
      is_placeholder here,
      λ found. inspect-placeholder fuel owned index found here,
    )
    | inr (inr (inr (a, b, c))) ↦
        ([], in_other a b c, λ found. inspect-other fuel owned index found a b c)
  ]
