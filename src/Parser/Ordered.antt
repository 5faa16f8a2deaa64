-- ===== src/Parser/Ordered.antt =====
-- The order of the arena of src/rewrite.cpp: what a node refers to stands before it.
use bennu.Prelude.{
  ℕ, zero, suc, ◌+◌, ◌≤◌, ◌<◌, ◌≡◌, ◌⊎◌, inl, inr, refl, ap, sym, ◌∙◌, Bool, true, false, List, [],
  ◌∷◌, ◌++◌, some, All, length, length-append, get_elem?, arith,
}
use mathlib.Core.List.{append-nil}
use mathlib.Core.Option.{some-injective}
use bennu.Parser.Types.{
  RewriteProgram, RewriteNode, RewriteNodeKind, RewriteCall, primitive_call, tuple_literal,
  push_node,
}
use bennu.Parser.Finish.{slice}

-- Numbers below a bound.
abbrev pub AllBelow : ℕ → List ℕ → Type 0
AllBelow n = All (λ a. a < n)

abbrev pub is_parent : RewriteNodeKind → Bool
is_parent primitive_call = true
is_parent tuple_literal = true
is_parent _ = false

-- The arguments of a call and the elements of a tuple are nodes below an index.
pub record IsBehind (p : RewriteProgram) (index : ℕ) (node : RewriteNode) : Type 0 where
  pub call :
      node.kind ≡ primitive_call
      → (c : RewriteCall) × (get_elem? p.calls node.call_index ≡ some c)
        × (c.first_argument + c.argument_count ≤ length p.arguments)
        × AllBelow index (slice p.arguments c.first_argument c.argument_count)
  pub elements :
      node.kind ≡ tuple_literal
      → (node.first_element + node.element_count ≤ length p.tuple_elements)
        × AllBelow index (slice p.tuple_elements node.first_element node.element_count)

-- Each node of the arena stands behind the nodes that it refers to.
abbrev pub Ordered : RewriteProgram → Type 0
Ordered p =
    (index : ℕ) (node : RewriteNode) → get_elem? p.nodes index ≡ some node → IsBehind p index node

slice-append :
    (xs ys : List ℕ) (first count : ℕ)
    → first + count ≤ length xs
    → slice (xs ++ ys) first count ≡ slice xs first count
unfolding slice
slice-append [] [] first count h = refl
slice-append [] (y ∷ ys) zero zero h = refl
slice-append [] (y ∷ ys) (suc first) count h = absurd (omega arith)
slice-append [] (y ∷ ys) zero (suc count) h = absurd (omega arith)
slice-append (x ∷ xs) ys first zero h = refl
slice-append (x ∷ xs) ys zero (suc count) h =
    ap (λ t. x ∷ t) (slice-append xs ys zero count (omega arith))
slice-append (x ∷ xs) ys (suc first) (suc count) h =
    slice-append xs ys first (suc count) (omega arith)

get_elem?-append :
    {A : Type 0} (xs ys : List A) (i : ℕ) {a : A}
    → get_elem? xs i ≡ some a
    → get_elem? (xs ++ ys) i ≡ some a
get_elem?-append [] ys i e = absurd cc
get_elem?-append (x ∷ xs) ys zero e = e
get_elem?-append (x ∷ xs) ys (suc i) e = get_elem?-append xs ys i e

get_elem?-push :
    {A : Type 0} (xs : List A) (x : A) (i : ℕ) {a : A}
    → get_elem? (xs ++ (x ∷ [])) i ≡ some a
    → (get_elem? xs i ≡ some a) ⊎ ((i ≡ length xs) × (x ≡ a))
get_elem?-push [] x zero e = inr (refl, some-injective _ _ e)
get_elem?-push [] x (suc i) e = absurd cc
get_elem?-push (y ∷ xs) x zero e = inl e
get_elem?-push (y ∷ xs) x (suc i) e = elim (get_elem?-push xs x i e) [
  | inl before ↦ inl before
  | inr (last, same) ↦ inr (ap suc last, same)
]

get_elem?-last :
    {A : Type 0} (xs : List A) (x : A) → get_elem? (xs ++ (x ∷ [])) (length xs) ≡ some x
get_elem?-last [] x = refl
get_elem?-last (y ∷ xs) x = get_elem?-last xs x

slice-last : (xs ys : List ℕ) → slice (xs ++ ys) (length xs) (length ys) ≡ ys
unfolding slice
slice-last [] [] = refl
slice-last [] (y ∷ ys) = ap (λ t. y ∷ t) (slice-last [] ys)
slice-last (x ∷ xs) [] = refl
slice-last (x ∷ xs) (y ∷ ys) = slice-last xs (y ∷ ys)

-- A program with more calls, arguments and elements of tuples.
pub record Grows (p p' : RewriteProgram) : Type 0 where
  pub more_calls : List RewriteCall
  pub more_arguments : List ℕ
  pub more_elements : List ℕ
  pub nodes : p'.nodes ≡ p.nodes
  pub calls : p'.calls ≡ p.calls ++ more_calls
  pub arguments : p'.arguments ≡ p.arguments ++ more_arguments
  pub elements : p'.tuple_elements ≡ p.tuple_elements ++ more_elements

Grows-refl :
    (p p' : RewriteProgram)
    → p'.nodes ≡ p.nodes
    → p'.calls ≡ p.calls
    → p'.arguments ≡ p.arguments
    → p'.tuple_elements ≡ p.tuple_elements
    → Grows p p'
Grows-refl p p' nodes calls arguments elements = record {
  more_calls = [];
  more_arguments = [];
  more_elements = [];
  nodes = nodes;
  calls = calls ∙ sym (append-nil p.calls);
  arguments = arguments ∙ sym (append-nil p.arguments);
  elements = elements ∙ sym (append-nil p.tuple_elements);
}

Grows-IsBehind :
    (p p' : RewriteProgram) (index : ℕ) (node : RewriteNode)
    → Grows p p'
    → IsBehind p index node
    → IsBehind p' index node
Grows-IsBehind p p' index node g b = record {
  call = λ is_call.
      let (c, found, inside, below) = b.call is_call in
      (
        c,
        rw g.calls (get_elem?-append p.calls g.more_calls node.call_index found),
        rw g.arguments (omega (arith, inside, length-append p.arguments g.more_arguments)),
        rw
            (
              g.arguments,
              slice-append p.arguments g.more_arguments c.first_argument c.argument_count inside,
            )
            below,
      );
  elements = λ is_tuple.
      let (inside, below) = b.elements is_tuple in
      (
        rw g.elements (omega (arith, inside, length-append p.tuple_elements g.more_elements)),
        rw
            (
              g.elements,
              slice-append p.tuple_elements g.more_elements node.first_element node.element_count
                  inside,
            )
            below,
      );
}

pub Grows-Ordered : (p p' : RewriteProgram) → Grows p p' → Ordered p → Ordered p'
Grows-Ordered p p' g o index node found =
    Grows-IsBehind p p' index node g (o index node (rw g.nodes at found))

pub same-Ordered :
    (p p' : RewriteProgram)
    → p'.nodes ≡ p.nodes
    → p'.calls ≡ p.calls
    → p'.arguments ≡ p.arguments
    → p'.tuple_elements ≡ p.tuple_elements
    → Ordered p
    → Ordered p'
same-Ordered p p' nodes calls arguments elements =
    Grows-Ordered p p' (Grows-refl p p' nodes calls arguments elements)

-- A new node behind those that it refers to.
pub push_node-Ordered :
    (p : RewriteProgram) (node : RewriteNode)
    → Ordered p
    → IsBehind p (length p.nodes) node
    → Ordered (push_node p node).0
push_node-Ordered p node o b index found e = elim (get_elem?-push p.nodes node index e) [
  | inl before ↦
      let behind = o index found before in record { call = behind.call; elements = behind.elements }
  | inr (last, same) ↦ rw (last, ← same) (record { call = b.call; elements = b.elements })
]

pub plain-IsBehind :
    (p : RewriteProgram) (index : ℕ) (node : RewriteNode)
    → is_parent node.kind ≡ false
    → IsBehind p index node
plain-IsBehind p index node leaf = record {
  call = λ is_call. absurd (ground arith);
  elements = λ is_tuple. absurd (ground arith);
}

-- A call of the nodes that waited, and a tuple of them.
pub call-IsBehind :
    (p : RewriteProgram) (index : ℕ) (node : RewriteNode) (call : RewriteCall)
    (arguments waiting : List ℕ) (calls : List RewriteCall)
    → p.calls ≡ calls ++ (call ∷ [])
    → p.arguments ≡ arguments ++ waiting
    → node.kind ≡ primitive_call
    → node.call_index ≡ length calls
    → call.first_argument ≡ length arguments
    → call.argument_count ≡ length waiting
    → AllBelow index waiting
    → IsBehind p index node
call-IsBehind p index node call arguments waiting calls ec ea kind at first count below = record {
  call = λ is_call. (
    call,
    rw (ec, at) (get_elem?-last calls call),
    rw (ea, first, count) (omega (arith, length-append arguments waiting)),
    rw (ea, first, count, slice-last arguments waiting) below,
  );
  elements = λ is_tuple. absurd (ground arith);
}

pub tuple-IsBehind :
    (p : RewriteProgram) (index : ℕ) (node : RewriteNode) (elements waiting : List ℕ)
    → p.tuple_elements ≡ elements ++ waiting
    → node.kind ≡ tuple_literal
    → node.first_element ≡ length elements
    → node.element_count ≡ length waiting
    → AllBelow index waiting
    → IsBehind p index node
tuple-IsBehind p index node elements waiting e kind first count below = record {
  call = λ is_call. absurd (ground arith);
  elements = λ is_tuple. (
    rw (e, first, count) (omega (arith, length-append elements waiting)),
    rw (e, first, count, slice-last elements waiting) below,
  );
}
