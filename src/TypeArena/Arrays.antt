-- ===== src/TypeArena/Arrays.antt =====
-- Loops of `host_array_push` of include/bennu/host_storage.hpp, and what an array holds where. Its claim
-- in the registry of allocations, which HostStorage models, is taken to be granted for these arrays.
use bennu.Prelude.{
  ℕ, zero, suc, ◌+◌, ◌<◌, ◌≤◌, ◌≡◌, refl, ap, sym, ◌∙◌, List, [], ◌∷◌, ◌++◌, Option, none, some,
  length, length-append, ltb, if◌then◌else◌, arith, map,
}
use mathlib.Core.List.{append_assoc, append-nil}
use bennu.TypeArena.Validate.{read}

-- The pushes of some elements, in order; nothing if the array is full.
unfoldable pub push_all {ℓ} : {A : Type ℓ} → ℕ → List A → List A → Option (List A)
push_all capacity array [] = some array
push_all capacity array (x ∷ xs) =
    let rest = push_all capacity (array ++ (x ∷ [])) xs in
    if ltb (length array) capacity then rest else none

pub push_all-fits {ℓ} :
    {A : Type ℓ} (capacity : ℕ) (array xs : List A)
    → length array + length xs ≤ capacity
    → push_all capacity array xs ≡ some (array ++ xs)
unfolding push_all
push_all-fits capacity array [] h = ap (λ t. some t) (sym (append-nil array))
push_all-fits capacity array (x ∷ xs) h =
    let rest =
      push_all-fits capacity (array ++ (x ∷ [])) xs (omega (arith, length-append array (x ∷ []))) in
    let joined = append_assoc array (x ∷ []) xs in ground (arith, rest, joined)

module _ {ℓ} {A : Type ℓ} where
  -- An array that begins with another.
  abbrev pub Extends : List A → List A → Type ℓ
  Extends xs ys = (zs : List A) × (ys ≡ xs ++ zs)

  pub Extends-append : (xs zs : List A) → Extends xs (xs ++ zs)
  Extends-append xs zs = (zs, refl)

  pub Extends-trans : (xs ys zs : List A) → Extends xs ys → Extends ys zs → Extends xs zs
  Extends-trans xs ys zs (us, e) (vs, e') =
      (us ++ vs, e' ∙ ap (λ t. t ++ vs) e ∙ append_assoc xs us vs)

  read-front :
      (outside : A) (ms zs : List A) (i : ℕ)
      → i < length ms
      → read (ms ++ zs) outside i ≡ read ms outside i
  unfolding read
  read-front outside [] zs i h = absurd (omega arith)
  read-front outside (m ∷ ms) zs zero h = refl
  read-front outside (m ∷ ms) zs (suc i) h = read-front outside ms zs i (omega arith)

  pub read-skip :
      (outside : A) (xs ys : List A) (i : ℕ)
      → read (xs ++ ys) outside (i + length xs) ≡ read ys outside i
  unfolding read
  read-skip outside [] ys i = ap (λ k. read ys outside k) (omega arith)
  read-skip outside (x ∷ xs) ys i =
      let later : i + suc (length xs) ≡ suc (i + length xs) = omega arith in
      rw later (read-skip outside xs ys i)

  pub read-Extends :
      (outside : A) (xs ms ys : List A) (i : ℕ)
      → Extends (xs ++ ms) ys
      → i < length ms
      → read ys outside (i + length xs) ≡ read ms outside i
  read-Extends outside xs ms ys i (zs, e) h =
      ap (λ t. read t outside (i + length xs)) e
      ∙ ap (λ t. read t outside (i + length xs)) (append_assoc xs ms zs)
      ∙ read-skip outside xs (ms ++ zs) i
      ∙ read-front outside ms zs i h

pub read-map {ℓ κ} :
    {A : Type ℓ} {B : Type κ} (f : A → B) (outside : A) (outside' : B) (xs : List A) (i : ℕ)
    → i < length xs
    → read (map f xs) outside' i ≡ f (read xs outside i)
unfolding read
read-map f outside outside' [] i h = absurd (omega arith)
read-map f outside outside' (x ∷ xs) zero h = refl
read-map f outside outside' (x ∷ xs) (suc i) h = read-map f outside outside' xs i (omega arith)

pub length-map {ℓ κ} :
    {A : Type ℓ} {B : Type κ} (f : A → B) (xs : List A) → length (map f xs) ≡ length xs
length-map f [] = refl
length-map f (x ∷ xs) = omega (arith, length-map f xs)
