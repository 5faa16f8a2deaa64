-- ===== src/TypeArena/Equality.antt =====
-- The verdicts of `structural_type_equal` of src/type.cpp.
use bennu.Prelude.{
  ℕ, ◌<◌, ◌≡◌, ◌≢◌, ◌⊎◌, inl, inr, refl, ap, ◌∙◌, ◌↔◌, Bool, true, false, not, ◌&&◌, [], ◌∷◌, some,
  length, if◌then◌else◌, arith, Bool-cases,
}
use bennu.HostStorage.Registry.{
  HostResourceErrorReason, no_failure, size_overflow, allocation_unavailable,
}
use bennu.TypeArena.Types.{TypeArena, type_nodes, TypeValidationResult, no_violation}
use bennu.TypeArena.Validate.{HostAnswers, request, validate_type}
use bennu.TypeArena.Ends.{validate_type-IsSome}
use bennu.TypeArena.Accepted.{validate_type-IsGood}
use bennu.TypeArena.Shape.{type_shape}
use bennu.TypeArena.Sizes.{validate_type-size}
use bennu.TypeArena.Equal.{
  TypeEqualityResult, later, validation_requests, equality_failure, equality_result, compare_types,
  compare_capacity, compare_accepted, structural_type_equal,
}
use bennu.TypeArena.Same.{same_shape, same_shape_iff, left_total, right_total, all_same}
use bennu.TypeArena.Compared.{compare_types-same}

&&-true : (b : Bool) → (b && true) ≡ b
&&-true true = refl
&&-true false = refl

module _ (host : HostAnswers) (left right : TypeArena) (r r' : TypeValidationResult)
    (host' : HostAnswers) (accepted : validate_type host left ≡ some r) (ok : r.ok ≡ true)
    (accepted' : validate_type host' right ≡ some r') (ok' : r'.ok ≡ true) where
  compare_capacity_positive : 0 < compare_capacity left right
  compare_capacity_positive =
      let here = (validate_type-size host left r accepted ok).1 in
      let there = (validate_type-size host' right r' accepted' ok').1 in omega arith

  compare_roots :
      compare_types left right
        (compare_capacity left right)
        (length (type_nodes left))
        ((left.root_index, right.root_index) ∷ [])
      ≡ some (equality_result (same_shape (type_shape left) (type_shape right)))
  unfolding left_total right_total all_same type_shape
  compare_roots =
      let here = (validate_type-size host left r accepted ok).0 in
      let there = (validate_type-size host' right r' accepted' ok').0 in
      compare_types-same left right (validate_type-IsGood host left r accepted ok)
        (validate_type-IsGood host' right r' accepted' ok') (length (type_nodes left))
        (length (type_nodes right)) (length (type_nodes left))
        ((left.root_index, right.root_index) ∷ []) (omega arith) (omega arith) (omega arith)
      ∙ ap (λ b. some (equality_result b))
          (&&-true (same_shape (type_shape left) (type_shape right)))

  compare_accepted-granted :
      (answers : HostAnswers)
      → request answers 0 (compare_capacity left right) ≡ no_failure
      → compare_accepted answers left right
        ≡ some (equality_result (same_shape (type_shape left) (type_shape right)))
  unfolding compare_accepted
  compare_accepted-granted answers granted =
      ground (arith, compare_capacity_positive, compare_roots)

-- The validation refuses a type.
abbrev pub Refuses : HostAnswers → TypeArena → Type 0
Refuses host type = (r : TypeValidationResult) × (validate_type host type ≡ some r) × (r.ok ≡ false)

abbrev pub behind_left : HostAnswers → TypeArena → HostAnswers
behind_left host left = later host (validation_requests left)

abbrev pub behind_right : HostAnswers → TypeArena → TypeArena → HostAnswers
behind_right host left right = later (behind_left host left) (validation_requests right)

abbrev Denies : HostAnswers → ℕ → Type 0
Denies host count = request host 0 count ≢ no_failure

-- What the comparison says, or why it says nothing.
abbrev pub Says : HostAnswers → TypeArena → TypeArena → TypeEqualityResult → Type 0
Says host left right r =
    ((r.ok ≡ true) × ((r.equal ≡ true) ↔ (type_shape left ≡ type_shape right)))
    ⊎ ((r.ok ≡ false)
        × (r.equal ≡ false)
        × (Refuses host left
            ⊎ (Refuses (behind_left host left) right
                ⊎ Denies (behind_right host left right) (compare_capacity left right))))

compare_accepted-denied :
    (answers : HostAnswers) (left right : TypeArena)
    → request answers 0 (compare_capacity left right) ≢ no_failure
    → compare_accepted answers left right
      ≡ some (equality_failure no_violation (request answers 0 (compare_capacity left right)))
unfolding compare_accepted
compare_accepted-denied answers left right h = ground arith

pub HostResourceErrorReason-cases :
    (reason : HostResourceErrorReason) → (reason ≡ no_failure) ⊎ (reason ≢ no_failure)
HostResourceErrorReason-cases no_failure = inl refl
HostResourceErrorReason-cases size_overflow = inr (λ e. cc)
HostResourceErrorReason-cases allocation_unavailable = inr (λ e. cc)

structural_type_equal-left :
    (host : HostAnswers) (left right : TypeArena) (r : TypeValidationResult)
    → validate_type host left ≡ some r
    → r.ok ≡ false
    → structural_type_equal host left right ≡ some (equality_failure r.invariant r.resource_error)
unfolding structural_type_equal
structural_type_equal-left host left right r e refused = rw (structural_type_equal, e, refused) refl

structural_type_equal-right :
    (host : HostAnswers) (left right : TypeArena) (r r' : TypeValidationResult)
    → validate_type host left ≡ some r
    → r.ok ≡ true
    → validate_type (behind_left host left) right ≡ some r'
    → structural_type_equal host left right ≡ (
        if not r'.ok
        then some (equality_failure r'.invariant r'.resource_error)
        else compare_accepted (behind_right host left right) left right)
unfolding structural_type_equal
structural_type_equal-right host left right r r' e ok e' =
    rw (structural_type_equal, e, ok, e') refl

accepted-Says :
    (host : HostAnswers) (left right : TypeArena) (r r' : TypeValidationResult)
    → validate_type host left ≡ some r
    → r.ok ≡ true
    → validate_type (behind_left host left) right ≡ some r'
    → r'.ok ≡ true
    → (v : TypeEqualityResult) × (compare_accepted (behind_right host left right) left right
        ≡ some v)
      × Says host left right v
unfolding equality_result equality_failure
accepted-Says host left right r r' e ok e' ok' =
    let answers = behind_right host left right in
    elim (HostResourceErrorReason-cases (request answers 0 (compare_capacity left right))) [
      | inl granted ↦ (
        _,
        compare_accepted-granted host left right r r' (behind_left host left) e ok e' ok' answers
            granted,
        inl (refl, same_shape_iff (type_shape left) (type_shape right)),
      )
      | inr denial ↦
          (_, compare_accepted-denied answers left right denial, inr (refl, refl, inr (inr denial)))
    ]

-- The comparison of two types ends on all arenas and all answers of the host. It says that the types
-- are equal exactly when the arenas stand for one tree; or it is refused, since the validation
-- refuses one of the types or the host denies the stack.
pub structural_type_equal-Says :
    (host : HostAnswers) (left right : TypeArena)
    → (r : TypeEqualityResult) × (structural_type_equal host left right ≡ some r)
      × Says host left right r
unfolding equality_failure
structural_type_equal-Says host left right =
    let (r, e) = validate_type-IsSome host left in
    let (r', e') = validate_type-IsSome (behind_left host left) right in
    elim (Bool-cases r.ok) [
      | inr refused ↦ (
        _,
        structural_type_equal-left host left right r e refused,
        inr (refl, refl, inl (r, e, refused)),
      )
      | inl ok ↦
          let both = structural_type_equal-right host left right r r' e ok e' in
          elim (Bool-cases r'.ok) [
            | inr refused ↦ (
              equality_failure r'.invariant r'.resource_error,
              both ∙ rw refused refl,
              inr (refl, refl, inr (inl (r', e', refused))),
            )
            | inl ok' ↦
                let (v, result, says) = accepted-Says host left right r r' e ok e' ok' in
                (v, both ∙ rw ok' result, says)
          ]
    ]
