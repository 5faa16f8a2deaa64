-- ===== src/TypeArena/Same.antt =====
-- Equality of the shapes of types, and of the pairs on a stack, as tests.
use bennu.Prelude.{
  ℕ, zero, suc, ◌+◌, ◌≤◌, ◌≡◌, ◌≢◌, refl, ap, ◌∙◌, ◌↔◌, Bool, true, false, ◌&&◌, List, [], ◌∷◌,
  some, length, if◌then◌else◌, ◌==◌, nat_eq, arith, &&-eq-true,
}
use bennu.Scalar.Types.{ScalarType, scalar_type_eq}
use bennu.TypeArena.Types.{scalar, vector, tuple, TypeKind, type_kind_eq, TypeArena}
use bennu.TypeArena.Postorder.{child}
use bennu.TypeArena.Shape.{
  Shape, Shapes, scalar_shape, vector_shape, tuple_shape, nil, cons, size, children, shapes_at,
  shape_of,
}
use bennu.TypeArena.Sizes.{total, size_positive}
use bennu.TypeArena.Equal.{NodePair, push_pairs, is_leaf}

-- Equality of shapes as a test.
unfoldable mutual
  pub same_shape : Shape → Shape → Bool
  same_shape (scalar_shape a) (scalar_shape b) = a == b
  same_shape (vector_shape a) (vector_shape b) = a == b
  same_shape (tuple_shape a) (tuple_shape b) = same_shapes a b
  same_shape _ _ = false

  pub same_shapes : Shapes → Shapes → Bool
  same_shapes nil nil = true
  same_shapes (cons s ss) (cons t ts) = same_shape s t && same_shapes ss ts
  same_shapes _ _ = false

mutual
  unfolding same_shape

  same_shape-true : (s t : Shape) → same_shape s t ≡ true → s ≡ t
  same_shape-true (scalar_shape a) (scalar_shape b) e =
      ap scalar_shape ((scalar_type_eq.test_iff a b).0 e)
  same_shape-true (scalar_shape a) (vector_shape b) e = absurd cc
  same_shape-true (scalar_shape a) (tuple_shape b) e = absurd cc
  same_shape-true (vector_shape a) (vector_shape b) e =
      ap vector_shape ((scalar_type_eq.test_iff a b).0 e)
  same_shape-true (vector_shape a) (scalar_shape b) e = absurd cc
  same_shape-true (vector_shape a) (tuple_shape b) e = absurd cc
  same_shape-true (tuple_shape a) (scalar_shape b) e = absurd cc
  same_shape-true (tuple_shape a) (vector_shape b) e = absurd cc
  same_shape-true (tuple_shape a) (tuple_shape b) e = ap tuple_shape (same_shapes-true a b e)

  same_shapes-true : (s t : Shapes) → same_shapes s t ≡ true → s ≡ t
  same_shapes-true nil nil e = refl
  same_shapes-true nil (cons t ts) e = absurd cc
  same_shapes-true (cons s ss) nil e = absurd cc
  same_shapes-true (cons s ss) (cons t ts) e =
      let (first, rest) = &&-eq-true (same_shape s t) (same_shapes ss ts) e in
      rw (same_shape-true s t first, same_shapes-true ss ts rest) refl

mutual
  unfolding same_shape

  same_shape_self : (s : Shape) → same_shape s s ≡ true
  same_shape_self (scalar_shape a) = (scalar_type_eq.test_iff a a).1 refl
  same_shape_self (vector_shape a) = (scalar_type_eq.test_iff a a).1 refl
  same_shape_self (tuple_shape a) = same_shapes_self a

  same_shapes_self : (s : Shapes) → same_shapes s s ≡ true
  same_shapes_self nil = refl
  same_shapes_self (cons s ss) = ground (arith, same_shape_self s, same_shapes_self ss)

pub same_shape_iff : (s t : Shape) → (same_shape s t ≡ true) ↔ (s ≡ t)
same_shape_iff s t = (same_shape-true s t, λ e. (rw e (same_shape_self t)))

pub same_shape-shape_of :
    (k k' : TypeKind) (e e' : ScalarType) (s s' : Shapes)
    → same_shape (shape_of k e s) (shape_of k' e' s')
      ≡ ((k == k') && (if is_leaf k then e == e' else same_shapes s s'))
unfolding same_shape shape_of
same_shape-shape_of scalar scalar e e' s s' = refl
same_shape-shape_of scalar vector e e' s s' = refl
same_shape-shape_of scalar tuple e e' s s' = refl
same_shape-shape_of vector scalar e e' s s' = refl
same_shape-shape_of vector vector e e' s s' = refl
same_shape-shape_of vector tuple e e' s s' = refl
same_shape-shape_of tuple scalar e e' s s' = refl
same_shape-shape_of tuple vector e e' s s' = refl
same_shape-shape_of tuple tuple e e' s s' = refl

-- The pairs that the loop over the children leaves on the stack.
unfoldable pub pushed : TypeArena → TypeArena → ℕ → ℕ → ℕ → List NodePair → List NodePair
pushed left right l r zero stack = stack
pushed left right l r (suc count) stack =
    pushed left right (l + 1) (r + 1) count ((child left l, child right r) ∷ stack)

pub push_pairs-fits :
    (left right : TypeArena) (capacity l r count : ℕ) (stack : List NodePair)
    → length stack + count ≤ capacity
    → push_pairs left right capacity l r count stack ≡ some (pushed left right l r count stack)
unfolding push_pairs pushed
push_pairs-fits left right capacity l r zero stack h = refl
push_pairs-fits left right capacity l r (suc count) stack h =
    let rest =
      push_pairs-fits left right capacity (l + 1) (r + 1) count
        ((child left l, child right r) ∷ stack) (omega arith) in
    ground arith

-- The sizes of the nodes of a stack on either side.
unfoldable pub left_total : (ℕ → Shape) → List NodePair → ℕ
left_total f [] = 0
left_total f ((i, j) ∷ stack) = size (f i) + left_total f stack

unfoldable pub right_total : (ℕ → Shape) → List NodePair → ℕ
right_total f [] = 0
right_total f ((i, j) ∷ stack) = size (f j) + right_total f stack

unfoldable pub all_same : (ℕ → Shape) → (ℕ → Shape) → List NodePair → Bool
unfolding same_shape
all_same f g [] = true
all_same f g ((i, j) ∷ stack) = same_shape (f i) (g j) && all_same f g stack

pub left_total-length : (f : ℕ → Shape) (stack : List NodePair) → length stack ≤ left_total f stack
unfolding left_total
left_total-length f [] = omega arith
left_total-length f ((i, j) ∷ stack) = omega (arith, left_total-length f stack, size_positive (f i))

pub right_total-length :
    (f : ℕ → Shape) (stack : List NodePair) → length stack ≤ right_total f stack
unfolding right_total
right_total-length f [] = omega arith
right_total-length f ((i, j) ∷ stack) =
    omega (arith, right_total-length f stack, size_positive (f j))

pub left_total-pushed :
    (left right : TypeArena) (f : ℕ → Shape) (l r count : ℕ) (stack : List NodePair)
    → left_total f (pushed left right l r count stack)
      ≡ total f (children left l count) + left_total f stack
unfolding left_total pushed total children
left_total-pushed left right f l r zero stack = omega arith
left_total-pushed left right f l r (suc count) stack = omega (
  arith,
  left_total-pushed left right f (l + 1) (r + 1) count ((child left l, child right r) ∷ stack),
)

pub right_total-pushed :
    (left right : TypeArena) (f : ℕ → Shape) (l r count : ℕ) (stack : List NodePair)
    → right_total f (pushed left right l r count stack)
      ≡ total f (children right r count) + right_total f stack
unfolding right_total pushed total children
right_total-pushed left right f l r zero stack = omega arith
right_total-pushed left right f l r (suc count) stack = omega (
  arith,
  right_total-pushed left right f (l + 1) (r + 1) count ((child left l, child right r) ∷ stack),
)

&&-swap : (a b c : Bool) → (a && (b && c)) ≡ ((b && a) && c)
&&-swap a b c = ground arith

pub all_same-pushed :
    (left right : TypeArena) (f g : ℕ → Shape) (l r count : ℕ) (stack : List NodePair)
    → all_same f g (pushed left right l r count stack) ≡ (
        same_shapes (shapes_at f (children left l count)) (shapes_at g (children right r count))
        && all_same f g stack)
unfolding all_same pushed same_shape shapes_at children
all_same-pushed left right f g l r zero stack = refl
all_same-pushed left right f g l r (suc count) stack =
    all_same-pushed left right f g (l + 1) (r + 1) count ((child left l, child right r) ∷ stack)
    ∙ &&-swap
        (same_shapes (shapes_at f (children left (l + 1) count))
          (shapes_at g (children right (r + 1) count)))
        (same_shape (f (child left l)) (g (child right r))) (all_same f g stack)

pub same_shapes-count :
    (left right : TypeArena) (f g : ℕ → Shape) (l r count count' : ℕ)
    → count ≢ count'
    → same_shapes (shapes_at f (children left l count)) (shapes_at g (children right r count'))
      ≡ false
unfolding same_shape shapes_at children
same_shapes-count left right f g l r zero zero h = absurd (h refl)
same_shapes-count left right f g l r zero (suc count') h = refl
same_shapes-count left right f g l r (suc count) zero h = refl
same_shapes-count left right f g l r (suc count) (suc count') h =
    ground
      (arith, same_shapes-count left right f g (l + 1) (r + 1) count count' (λ e. h (ap suc e)))
