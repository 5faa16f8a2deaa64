-- ===== src/Primitive/Select/Best.antt =====
-- What each result of `select_primitive_signature` of src/primitive.cpp says.
use bennu.Prelude.{
  ℕ, zero, suc, ◌+◌, ◌≤◌, ◌<◌, ◌≡◌, ◌≢◌, sym, inl, inr, true, List, [], ◌∷◌, none, some, length,
  get_elem?, arith, Bool-cases, Option-cases, ◌∙◌,
}
use bennu.Scalar.Types.{ScalarType}
use bennu.Primitive.Types.{PrimitiveSignature, PrimitiveDescriptor}
use bennu.Primitive.Select.{
  size_max, Selection, select_from, no_selection, SignatureSelectionStatus, success, arity_mismatch,
  type_mismatch, ambiguous_selection, SignatureSelectionResult, selection_result,
  select_primitive_signature,
}
use bennu.Primitive.Select.Cheapest.{cost_at, IsBest, Seen, Unseen}
use bennu.Primitive.Select.Loop.{
  LoopInv, select_from-Inv, ArityInv, select_from-ArityInv, no_selection-Inv,
}

-- What a result says about the signatures and the types of the arguments.
abbrev pub Explains :
    List ScalarType
    → List PrimitiveSignature
    → SignatureSelectionStatus
    → SignatureSelectionResult
    → Type 0
Explains types all success r =
    IsBest (cost_at types all) r.signature_index r.promotion_cost
    × (r.signature ≡ get_elem? all r.signature_index)
Explains types all arity_mismatch r =
    (i : ℕ) (x : PrimitiveSignature) → get_elem? all i ≡ some x → length x.parameters ≢ length types
Explains types all type_mismatch r =
    ((i : ℕ) → cost_at types all i ≡ none)
    × ((i : ℕ) × (x : PrimitiveSignature) × (get_elem? all i ≡ some x)
        × (length x.parameters ≡ length types))
Explains types all ambiguous_selection r =
    (i : ℕ) × (j : ℕ) × (c : ℕ) × (i ≢ j)
    × (cost_at types all i ≡ some c)
    × (cost_at types all j ≡ some c)
    × ((k d : ℕ) → cost_at types all k ≡ some d → c ≤ d)

get_elem?-lt :
    (all : List PrimitiveSignature) (i : ℕ) {x : PrimitiveSignature}
    → get_elem? all i ≡ some x
    → i < length all
get_elem?-lt [] i e = cc
get_elem?-lt (y ∷ all) zero e = omega arith
get_elem?-lt (y ∷ all) (suc i) e = omega (arith, get_elem?-lt all i e)

cost_at-lt :
    (types : List ScalarType) (all : List PrimitiveSignature) (i : ℕ) {c : ℕ}
    → cost_at types all i ≡ some c
    → i < length all
cost_at-lt types all i e = elim (Option-cases (get_elem? all i)) [
  | inl out ↦ ground arith
  | inr (x, here) ↦ get_elem?-lt all i here
]

module _ (types : List ScalarType) (all : List PrimitiveSignature)
    (short : length types < size_max) where
  abbrev ResultExplains : SignatureSelectionResult → Type 0
  ResultExplains r = Explains types all r.status r

  Unseen-Explains :
      (s : Selection)
      → s.arity_exists ≡ true
      → ArityInv types all short (length all) s
      → Unseen (cost_at types all) (get_elem? all) (length all) s
      → ResultExplains (selection_result s)
  unfolding selection_result
  Unseen-Explains s arity a h =
      rw (arity, h.nothing)
        (
          λ i. elim (Option-cases (cost_at types all i)) [
            | inl e ↦ e
            | inr (c, e) ↦ h.refuses i (cost_at-lt types all i e)
          ],
          a.1 arity,
        )

  Seen-Explains :
      (s : Selection)
      → s.arity_exists ≡ true
      → Seen (cost_at types all) (get_elem? all) (length all) s
      → ResultExplains (selection_result s)
  unfolding selection_result
  Seen-Explains s arity h = elim (Option-cases s.selected) [
    | inl e ↦ absurd (h.present e)
    | inr (x, e) ↦ elim (Bool-cases s.ambiguous) [
      | inr f ↦
          rw (arity, e, f)
            (
              record {
                accepts = h.accepts;
                cheapest = λ j d p q. h.strict f j d (cost_at-lt types all j p) p q;
              },
              sym e ∙ h.chosen,
            )
      | inl t ↦
          let (j, p, q, r) = h.tie t in
          rw (arity, e, t)
            (
              s.selected_index,
              j,
              s.selected_cost,
              (λ (i : s.selected_index ≡ j). q (sym i)),
              h.accepts,
              r,
              λ k d u. h.least k d (cost_at-lt types all k u) u,
            )
    ]
  ]

  result-Explains :
      (s : Selection)
      → ArityInv types all short (length all) s
      → LoopInv types all short (length all) s
      → ResultExplains (selection_result s)
  result-Explains s a inv = elim (Bool-cases s.arity_exists) [
    | inr f ↦ unfold selection_result in rw f (λ i x e. a.0 f i x (get_elem?-lt all i e) e)
    | inl t ↦ elim inv [ inl h ↦ Unseen-Explains s t a h | inr h ↦ Seen-Explains s t h ]
  ]

-- Overload selection says why it chose or refused, for any descriptor and any arguments. On
-- success the signature at the reported index accepts the arguments at the reported cost, and every
-- other signature that accepts them costs more. An arity mismatch means that no signature takes as
-- many arguments; a type mismatch, that some signature does and none accepts them; an ambiguity,
-- that two signatures accept them at the least cost.
pub select_primitive_signature-Explains :
    (descriptor : PrimitiveDescriptor) (types : List ScalarType)
    → length types < size_max
    → let r = select_primitive_signature descriptor types in
      Explains types descriptor.signatures r.status r
unfolding select_primitive_signature
select_primitive_signature-Explains descriptor types short =
    let all = descriptor.signatures in
    let start : (k : ℕ) → get_elem? all k ≡ get_elem? all (0 + k) = λ k. ground arith in
    let end : 0 + length all ≡ length all = omega arith in
    result-Explains types all short (select_from types 0 all no_selection)
      (rw end at (
        select_from-ArityInv types all short all 0 no_selection start
          (λ e i x p q. elim p [ ], λ e. cc)))
      (rw end at (
        select_from-Inv types all short all 0 no_selection start
          (no_selection-Inv types all short)))
