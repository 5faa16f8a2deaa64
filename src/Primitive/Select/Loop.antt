-- ===== src/Primitive/Select/Loop.antt =====
-- The loop of `select_primitive_signature` of src/primitive.cpp keeps its invariant.
use bennu.Prelude.{
  ℕ, suc, ◌+◌, ◌≤◌, ◌<◌, ◌≡◌, ◌≢◌, refl, sym, inl, inr, true, false, List, [], ◌∷◌, some, length,
  get_elem?, arith, Bool-cases, Option-cases, eqb, ◌∙◌,
}
use bennu.Scalar.Types.{ScalarType}
use bennu.Primitive.Types.{ValueType, PrimitiveSignature}
use bennu.Primitive.Select.{
  size_max, conversion_cost, add_costs, Selection, consider, select_from, no_selection,
}
use bennu.Primitive.Select.Cheapest.{cost_at, Inv, Inv-skip, Inv-offer, Inv-arity}

pub true-ne-false : true ≢ false
true-ne-false e = cc

pub add_costs-le :
    (types : List ScalarType) (ps : List ValueType) (total c : ℕ)
    → add_costs types ps total ≡ some c
    → c ≤ total + length types
unfolding add_costs conversion_cost
add_costs-le [] ps total c e = ground arith
add_costs-le (a ∷ as') [] total c e = ground arith
add_costs-le (a ∷ as') (p ∷ ps) total c e =
    ground (arith, add_costs-le as' ps (total + 0) c, add_costs-le as' ps (total + 1) c)

module _ (types : List ScalarType) (all : List PrimitiveSignature)
    (short : length types < size_max) where
  abbrev pub LoopInv : ℕ → Selection → Type 0
  LoopInv = Inv (cost_at types all) (get_elem? all)

  pub consider-Inv :
      (n : ℕ) (signature : PrimitiveSignature) (s : Selection)
      → get_elem? all n ≡ some signature
      → LoopInv n s
      → LoopInv (n + 1) (consider types n signature s)
  unfolding consider
  consider-Inv n signature s here inv =
      elim (Bool-cases (eqb (length signature.parameters) (length types))) [
        | inr other ↦ rw other (Inv-skip _ _ n s s.arity_exists (ground arith) inv)
        | inl same ↦ elim (Option-cases (add_costs types signature.parameters 0)) [
          | inl e ↦ rw (same, e) (Inv-skip _ _ n s true (ground arith) inv)
          | inr (c, e) ↦
              let le = add_costs-le types signature.parameters 0 c e in
              rw (same, e)
                (Inv-offer _ _ n c signature (record s { arity_exists = true }) (ground arith) here
                  (omega arith) (Inv-arity _ _ n s inv))
        ]
      ]

  -- The loop over the signatures from `n` on.
  pub select_from-Inv :
      (rest : List PrimitiveSignature) (n : ℕ) (s : Selection)
      → ((k : ℕ) → get_elem? rest k ≡ get_elem? all (n + k))
      → LoopInv n s
      → LoopInv (n + length rest) (select_from types n rest s)
  unfolding select_from
  select_from-Inv [] n s tail inv = let e : n + 0 ≡ n = omega arith in rw e inv
  select_from-Inv (x ∷ rest) n s tail inv =
      let e : n + suc (length rest) ≡ n + 1 + length rest = omega arith in
      rw e (
        select_from-Inv rest (n + 1) (consider types n x s) (λ k. ground (arith, tail (suc k)))
          (consider-Inv n x s (ground (arith, tail 0)) inv))

  pub consider-same :
      (n : ℕ) (signature : PrimitiveSignature) (s : Selection)
      → eqb (length signature.parameters) (length types) ≡ true
      → (consider types n signature s).arity_exists ≡ true
  unfolding consider
  consider-same n signature s same = ground arith

  pub consider-other :
      (n : ℕ) (signature : PrimitiveSignature) (s : Selection)
      → eqb (length signature.parameters) (length types) ≡ false
      → consider types n signature s ≡ s
  unfolding consider
  consider-other n signature s other = ground arith

  -- Whether some signature below `n` takes as many arguments.
  abbrev pub ArityInv : ℕ → Selection → Type 0
  ArityInv n s =
      (s.arity_exists ≡ false
        → (i : ℕ) (x : PrimitiveSignature) → i < n
        → get_elem? all i ≡ some x
        → length x.parameters ≢ length types)
      × (s.arity_exists ≡ true
          → (i : ℕ) × (x : PrimitiveSignature) × (get_elem? all i ≡ some x)
            × (length x.parameters ≡ length types))

  pub consider-ArityInv :
      (n : ℕ) (signature : PrimitiveSignature) (s : Selection)
      → get_elem? all n ≡ some signature
      → ArityInv n s
      → ArityInv (n + 1) (consider types n signature s)
  consider-ArityInv n signature s here inv =
      elim (Bool-cases (eqb (length signature.parameters) (length types))) [
        | inl same ↦ (
          λ e. absurd (true-ne-false (sym (consider-same n signature s same) ∙ e)),
          λ e. (n, signature, here, ground arith),
        )
        | inr other ↦
            rw (consider-other n signature s other)
              (λ e i x p q. ground (arith, inv.0 e i x), inv.1)
      ]

  pub select_from-ArityInv :
      (rest : List PrimitiveSignature) (n : ℕ) (s : Selection)
      → ((k : ℕ) → get_elem? rest k ≡ get_elem? all (n + k))
      → ArityInv n s
      → ArityInv (n + length rest) (select_from types n rest s)
  unfolding select_from
  select_from-ArityInv [] n s tail inv = let e : n + 0 ≡ n = omega arith in rw e inv
  select_from-ArityInv (x ∷ rest) n s tail inv =
      let e : n + suc (length rest) ≡ n + 1 + length rest = omega arith in
      rw e (
        select_from-ArityInv rest (n + 1) (consider types n x s) (λ k. ground (arith, tail (suc k)))
          (consider-ArityInv n x s (ground (arith, tail 0)) inv))

pub no_selection-Inv :
    (types : List ScalarType) (all : List PrimitiveSignature) (short : length types < size_max)
    → LoopInv types all short 0 no_selection
no_selection-Inv types all short =
    inl (record { nothing = refl; most = refl; refuses = λ j p. elim p [ ] })
