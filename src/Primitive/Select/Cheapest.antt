-- ===== src/Primitive/Select/Cheapest.antt =====
-- The invariant of the loop of `select_primitive_signature` of src/primitive.cpp: which signature
-- below an index is the cheapest.
use bennu.Prelude.{
  ℕ, ◌+◌, ◌≤◌, ◌<◌, ◌≡◌, ◌≢◌, ◌⊎◌, inl, inr, Bool, true, false, List, Option, none, some, length,
  get_elem?, arith, eqb, if◌then◌else◌,
}
use bennu.Scalar.Types.{ScalarType}
use bennu.Primitive.Types.{PrimitiveSignature}
use bennu.Primitive.Select.{size_max, add_costs, Selection, offer}

-- The number of promotions with which a signature takes the arguments, if it does.
abbrev pub cost_of : List ScalarType → PrimitiveSignature → Option ℕ
cost_of types signature =
    if eqb (length signature.parameters) (length types)
    then add_costs types signature.parameters 0
    else none

abbrev pub cost_at : List ScalarType → List PrimitiveSignature → ℕ → Option ℕ
cost_at types signatures i = elim (get_elem? signatures i) [
  | none ↦ none
  | some signature ↦ cost_of types signature
]

-- Signature `i` is the one cheapest: any other that takes the arguments costs more.
pub record IsBest (cost : ℕ → Option ℕ) (i c : ℕ) : Type 0 where
  pub accepts : cost i ≡ some c
  pub cheapest : (j d : ℕ) → cost j ≡ some d → j ≢ i → c < d

-- What the loop knows, once it has seen the signatures below `n`.
module _ (cost : ℕ → Option ℕ) (at : ℕ → Option PrimitiveSignature) where
  pub record Seen (n : ℕ) (s : Selection) : Type 0 where
    pub before : s.selected_index < n
    pub chosen : s.selected ≡ at s.selected_index
    pub present : s.selected ≢ none
    pub accepts : cost s.selected_index ≡ some s.selected_cost
    pub least : (j c : ℕ) → j < n → cost j ≡ some c → s.selected_cost ≤ c
    pub strict :
        s.ambiguous ≡ false
        → (j c : ℕ) → j < n
        → cost j ≡ some c
        → j ≢ s.selected_index
        → s.selected_cost < c
    pub tie :
        s.ambiguous ≡ true
        → (j : ℕ) × (j < n) × (j ≢ s.selected_index) × (cost j ≡ some s.selected_cost)

  pub record Unseen (n : ℕ) (s : Selection) : Type 0 where
    pub nothing : s.selected ≡ none
    pub most : s.selected_cost ≡ size_max
    pub refuses : (j : ℕ) → j < n → cost j ≡ none

  pub Seen-skip :
      (n : ℕ) (s : Selection) (b : Bool)
      → cost n ≡ none
      → Seen n s
      → Seen (n + 1) (record s { arity_exists = b })
  Seen-skip n s b e h = record {
    before = omega (arith, h.before);
    chosen = h.chosen;
    present = h.present;
    accepts = h.accepts;
    least = λ j c p q. ground (arith, h.least j c);
    strict = λ a j c p q r. ground (arith, h.strict a j c);
    tie = λ a. let (j, p, q, r) = h.tie a in (j, omega arith, q, r);
  }

  pub Unseen-skip :
      (n : ℕ) (s : Selection) (b : Bool)
      → cost n ≡ none
      → Unseen n s
      → Unseen (n + 1) (record s { arity_exists = b })
  Unseen-skip n s b e h = record {
    nothing = h.nothing;
    most = h.most;
    refuses = λ j p. ground (arith, h.refuses j);
  }

  module _ (n c : ℕ) (signature : PrimitiveSignature) (s : Selection) (here : cost n ≡ some c)
      (stands : at n ≡ some signature) where
    Unseen-offer : c < size_max → Unseen n s → Seen (n + 1) (offer n signature c s)
    unfolding offer
    Unseen-offer short h = record {
      before = ground (arith, h.most);
      chosen = ground (arith, h.most);
      present = ground (arith, h.most);
      accepts = ground (arith, h.most);
      least = λ j d p q. ground (arith, h.most, h.refuses j);
      strict = λ a j d p q r. ground (arith, h.most, h.refuses j);
      tie = λ a. ground (arith, h.most);
    }

    Seen-cheaper : c < s.selected_cost → Seen n s → Seen (n + 1) (offer n signature c s)
    unfolding offer
    Seen-cheaper cheaper h = record {
      before = ground arith;
      chosen = ground arith;
      present = ground arith;
      accepts = ground arith;
      least = λ j d p q. ground (arith, h.least j d);
      strict = λ a j d p q r. ground (arith, h.least j d);
      tie = λ a. ground arith;
    }

    Seen-equal : c ≡ s.selected_cost → Seen n s → Seen (n + 1) (offer n signature c s)
    unfolding offer
    Seen-equal same h = record {
      before = ground (arith, h.before);
      chosen = ground (arith, h.chosen);
      present = ground (arith, h.present);
      accepts = ground (arith, h.accepts);
      least = λ j d p q. ground (arith, h.least j d);
      strict = λ a j d p q r. ground arith;
      tie = λ a. (n, omega arith, ground (arith, h.before), ground arith);
    }

    Seen-dearer : s.selected_cost < c → Seen n s → Seen (n + 1) (offer n signature c s)
    unfolding offer
    Seen-dearer dearer h = record {
      before = ground (arith, h.before);
      chosen = ground (arith, h.chosen);
      present = ground (arith, h.present);
      accepts = ground (arith, h.accepts);
      least = λ j d p q. ground (arith, h.least j d);
      strict = λ a j d p q r. ground (arith, h.strict (ground arith) j d);
      tie = λ a.
          let (j, p, q, r) = h.tie (ground arith) in (j, omega arith, ground arith, ground arith);
    }

  abbrev pub Inv : ℕ → Selection → Type 0
  Inv n s = Unseen n s ⊎ Seen n s

  pub Inv-skip :
      (n : ℕ) (s : Selection) (b : Bool)
      → cost n ≡ none
      → Inv n s
      → Inv (n + 1) (record s { arity_exists = b })
  Inv-skip n s b e (inl h) = inl (Unseen-skip n s b e h)
  Inv-skip n s b e (inr h) = inr (Seen-skip n s b e h)

  pub Inv-offer :
      (n c : ℕ) (signature : PrimitiveSignature) (s : Selection)
      → cost n ≡ some c
      → at n ≡ some signature
      → c < size_max
      → Inv n s
      → Inv (n + 1) (offer n signature c s)
  Inv-offer n c signature s e a short (inl h) = inr (Unseen-offer n c signature s e a short h)
  Inv-offer n c signature s e a short (inr h) = elim (order c s.selected_cost) [
    | inl lt ↦ inr (Seen-cheaper n c signature s e a lt h)
    | inr (inl eq) ↦ inr (Seen-equal n c signature s e a eq h)
    | inr (inr gt) ↦ inr (Seen-dearer n c signature s e a gt h)
  ]
    where
      order : (a b : ℕ) → (a < b) ⊎ ((a ≡ b) ⊎ (b < a))
      order a b = omega arith

  pub Inv-arity : (n : ℕ) (s : Selection) → Inv n s → Inv n (record s { arity_exists = true })
  Inv-arity n s (inl h) = inl (record { nothing = h.nothing; most = h.most; refuses = h.refuses })
  Inv-arity n s (inr h) = inr (record {
    before = h.before;
    chosen = h.chosen;
    present = h.present;
    accepts = h.accepts;
    least = h.least;
    strict = h.strict;
    tie = h.tie;
  })
