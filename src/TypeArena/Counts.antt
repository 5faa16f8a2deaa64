-- ===== src/TypeArena/Counts.antt =====
-- Counts over the arrays of the walk of `validate_type` of src/type.cpp.
use bennu.Prelude.{
  ℕ, zero, suc, ◌+◌, ◌<◌, ◌≡◌, refl, ap, Bool, true, false, List, [], ◌∷◌, ◌++◌, if◌then◌else◌,
  ◌==◌, nat_eq, arith,
}
use bennu.TypeArena.Validate.{read, write, fill}
use bennu.TypeArena.Ends.{to_visit}

-- How often a number stands in a list.
unfoldable pub occurrences : ℕ → List ℕ → ℕ
occurrences j [] = 0
occurrences j (i ∷ is) = (if i == j then 1 else 0) + occurrences j is

-- The sum of a function over as many numbers, from the first on.
unfoldable pub sum_from : (ℕ → ℕ) → ℕ → ℕ → ℕ
sum_from f first zero = 0
sum_from f first (suc count) = f first + sum_from f (first + 1) count

pub occurrences-++ :
    (j : ℕ) (is js : List ℕ) → occurrences j (is ++ js) ≡ occurrences j is + occurrences j js
unfolding occurrences
occurrences-++ j [] js = omega arith
occurrences-++ j (i ∷ is) js = omega (arith, occurrences-++ j is js)

-- 1 for an element that is still false.
abbrev pub unset : List Bool → ℕ → ℕ
unset bs j = if read bs true j then 0 else 1

-- The sum over the elements that are still false.
unfoldable pub unset_sum : (ℕ → ℕ) → List Bool → ℕ → ℕ
unset_sum f [] first = 0
unset_sum f (b ∷ bs) first = (if b then 0 else f first) + unset_sum f bs (first + 1)

unset_sum-write :
    (f : ℕ → ℕ) (bs : List Bool) (i first : ℕ)
    → read bs true i ≡ false
    → unset_sum f bs first ≡ unset_sum f (write bs i true) first + f (first + i)
unfolding unset_sum read write
unset_sum-write f [] i first fresh = absurd cc
unset_sum-write f (b ∷ bs) zero first fresh =
    let same : f (first + 0) ≡ f first = ap f (omega arith) in
    let unseen : b ≡ false = fresh in ground arith
unset_sum-write f (b ∷ bs) (suc i) first fresh =
    let same : f (first + 1 + i) ≡ f (first + suc i) = ap f (omega arith) in
    omega (arith, same, unset_sum-write f bs i (first + 1) fresh)

pub unset_sum-visit :
    (f : ℕ → ℕ) (bs : List Bool) (i : ℕ)
    → read bs true i ≡ false
    → unset_sum f bs 0 ≡ unset_sum f (write bs i true) 0 + f i
unset_sum-visit f bs i fresh =
    let same : f (0 + i) ≡ f i = ap f (omega arith) in
    omega (arith, same, unset_sum-write f bs i 0 fresh)

pub unset-write :
    (bs : List Bool) (i j : ℕ)
    → read bs true i ≡ false
    → unset bs j ≡ unset (write bs i true) j + (if i == j then 1 else 0)
unfolding read write
unset-write [] i j fresh = absurd cc
unset-write (b ∷ bs) zero zero fresh = let unseen : b ≡ false = fresh in ground arith
unset-write (b ∷ bs) zero (suc j) fresh = ground arith
unset-write (b ∷ bs) (suc i) zero fresh = ground arith
unset-write (b ∷ bs) (suc i) (suc j) fresh = ground (arith, unset-write bs i j fresh)

pub to_visit-unset : (bs : List Bool) (j : ℕ) → to_visit bs ≡ 0 → unset bs j ≡ 0
unfolding read
to_visit-unset [] j none_left = refl
to_visit-unset (b ∷ bs) zero none_left = ground arith
to_visit-unset (b ∷ bs) (suc j) none_left = ground (arith, to_visit-unset bs j)

pub to_visit-unset_sum :
    (f : ℕ → ℕ) (bs : List Bool) (first : ℕ) → to_visit bs ≡ 0 → unset_sum f bs first ≡ 0
unfolding unset_sum
to_visit-unset_sum f [] first none_left = refl
to_visit-unset_sum f (b ∷ bs) first none_left = ground (arith, to_visit-unset_sum f bs (first + 1))

pub unset_sum-fill :
    (f : ℕ → ℕ) (count first : ℕ) → unset_sum f (fill count false) first ≡ sum_from f first count
unfolding unset_sum fill sum_from
unset_sum-fill f zero first = refl
unset_sum-fill f (suc count) first = omega (arith, unset_sum-fill f count (first + 1))

pub unset-fill : (count j : ℕ) → j < count → unset (fill count false) j ≡ 1
unfolding fill read
unset-fill zero j h = absurd (omega arith)
unset-fill (suc count) zero h = refl
unset-fill (suc count) (suc j) h = unset-fill count j (omega arith)
