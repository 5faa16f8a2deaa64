-- ===== src/TypeArena/Readable.antt =====
-- The texts of `format_type` of src/type.cpp against the verdicts of `structural_type_equal`.
use bennu.Prelude.{
  ℕ, ◌<◌, ◌≡◌, ◌↔◌, inl, inr, refl, ap, sym, ◌∙◌, true, [], ◌∷◌, ◌++◌, some, arith, Bytes, codes,
}
use mathlib.Core.List.{append_assoc}
use mathlib.Core.Option.{some-injective}
use mathlib.Core.Path.{subst}
use bennu.Scalar.Types.{ScalarType, boolean, integer, double_precision}
use bennu.TypeArena.Types.{TypeArena}
use bennu.TypeArena.Validate.{HostAnswers}
use bennu.TypeArena.Shape.{
  Shape, Shapes, scalar_shape, vector_shape, tuple_shape, nil, cons, type_shape,
}
use bennu.TypeArena.Equal.{TypeEqualityResult, structural_type_equal}
use bennu.TypeArena.Equality.{Says, structural_type_equal-Says}
use bennu.TypeArena.Format.{TypeFormattingResult, scalar_type_name, format_type}
use bennu.TypeArena.Text.{shape_text, elements_text, further_text}
use bennu.TypeArena.Printed.{Prints, format_type-Prints}

-- The first character of a text, and of the text of a shape.
abbrev first_of : Bytes → ℕ
first_of [] = 0
first_of (character ∷ text) = character

abbrev rest_of : Bytes → Bytes
rest_of [] = []
rest_of (character ∷ text) = text

lead : Shape → ℕ
lead (scalar_shape boolean) = 66
lead (scalar_shape integer) = 73
lead (scalar_shape double_precision) = 68
lead (vector_shape element) = 86
lead (tuple_shape elements) = 84

shape_text-lead : (s : Shape) (u : Bytes) → first_of (shape_text s ++ u) ≡ lead s
unfolding shape_text lead scalar_type_name
shape_text-lead (scalar_shape boolean) u = refl
shape_text-lead (scalar_shape integer) u = refl
shape_text-lead (scalar_shape double_precision) u = refl
shape_text-lead (vector_shape element) u = refl
shape_text-lead (tuple_shape elements) u = refl

lead_scalar : (element : ScalarType) → lead (scalar_shape element) < 84
unfolding lead
lead_scalar boolean = omega arith
lead_scalar integer = omega arith
lead_scalar double_precision = omega arith

lead_letter : (s : Shape) → 62 < lead s
unfolding lead
lead_letter (scalar_shape boolean) = omega arith
lead_letter (scalar_shape integer) = omega arith
lead_letter (scalar_shape double_precision) = omega arith
lead_letter (vector_shape element) = omega arith
lead_letter (tuple_shape elements) = omega arith

same_lead : (s t : Shape) (u v : Bytes) → shape_text s ++ u ≡ shape_text t ++ v → lead s ≡ lead t
same_lead s t u v e = sym (shape_text-lead s u) ∙ ap first_of e ∙ shape_text-lead t v

drop_front : (xs ys zs : Bytes) → xs ++ ys ≡ xs ++ zs → ys ≡ zs
drop_front [] ys zs e = e
drop_front (x ∷ xs) ys zs e = drop_front xs ys zs (ap rest_of e)

scalar_type_name-read :
    (a b : ScalarType) (u v : Bytes)
    → scalar_type_name a ++ u ≡ scalar_type_name b ++ v
    → (a ≡ b) × (u ≡ v)
unfolding scalar_type_name
scalar_type_name-read boolean boolean u v e = (refl, drop_front (codes "Bool") u v e)
scalar_type_name-read integer integer u v e = (refl, drop_front (codes "Int") u v e)
scalar_type_name-read double_precision double_precision u v e =
    (refl, drop_front (codes "Double") u v e)
scalar_type_name-read boolean integer u v e = absurd (omega (arith, ap first_of e))
scalar_type_name-read boolean double_precision u v e = absurd (omega (arith, ap first_of e))
scalar_type_name-read integer boolean u v e = absurd (omega (arith, ap first_of e))
scalar_type_name-read integer double_precision u v e = absurd (omega (arith, ap first_of e))
scalar_type_name-read double_precision boolean u v e = absurd (omega (arith, ap first_of e))
scalar_type_name-read double_precision integer u v e = absurd (omega (arith, ap first_of e))

-- An equation between two texts in three parts.
regroup : (a b c d e f : Bytes) → a ++ b ++ c ≡ d ++ e ++ f → a ++ (b ++ c) ≡ d ++ (e ++ f)
regroup a b c d e f same = sym (append_assoc a b c) ∙ same ∙ append_assoc d e f

vector_text-read :
    (a b : ScalarType) (u v : Bytes)
    → shape_text (vector_shape a) ++ u ≡ shape_text (vector_shape b) ++ v
    → (a ≡ b) × (u ≡ v)
unfolding shape_text
vector_text-read a b u v e =
    let named =
      drop_front (codes "Vector<") (scalar_type_name a ++ codes ">" ++ u)
        (scalar_type_name b ++ codes ">" ++ v) e in
    let (same, shut) =
      scalar_type_name-read a b (codes ">" ++ u) (codes ">" ++ v)
        (regroup (scalar_type_name a) (codes ">") u (scalar_type_name b) (codes ">") v named) in
    (same, ap rest_of shut)

mutual
  unfolding shape_text lead

  shape_text-read :
      (s t : Shape) (u v : Bytes) → shape_text s ++ u ≡ shape_text t ++ v → (s ≡ t) × (u ≡ v)
  shape_text-read (scalar_shape a) (scalar_shape b) u v e =
      let (same, rest) = scalar_type_name-read a b u v e in (ap scalar_shape same, rest)
  shape_text-read (vector_shape a) (vector_shape b) u v e =
      let (same, rest) = vector_text-read a b u v e in (ap vector_shape same, rest)
  shape_text-read (tuple_shape a) (tuple_shape b) u v e =
      let opened =
        drop_front (codes "Tuple<") (elements_text a ++ codes ">" ++ u)
          (elements_text b ++ codes ">" ++ v) e in
      let (same, rest) =
        elements_text-read a b u v
          (regroup (elements_text a) (codes ">") u (elements_text b) (codes ">") v opened) in
      (ap tuple_shape same, rest)
  shape_text-read (scalar_shape a) (vector_shape b) u v e =
      absurd (omega (arith, same_lead (scalar_shape a) (vector_shape b) u v e, lead_scalar a))
  shape_text-read (scalar_shape a) (tuple_shape b) u v e =
      absurd (omega (arith, same_lead (scalar_shape a) (tuple_shape b) u v e, lead_scalar a))
  shape_text-read (vector_shape a) (scalar_shape b) u v e =
      absurd (omega (arith, same_lead (vector_shape a) (scalar_shape b) u v e, lead_scalar b))
  shape_text-read (tuple_shape a) (scalar_shape b) u v e =
      absurd (omega (arith, same_lead (tuple_shape a) (scalar_shape b) u v e, lead_scalar b))
  shape_text-read (vector_shape a) (tuple_shape b) u v e =
      absurd (omega (arith, same_lead (vector_shape a) (tuple_shape b) u v e))
  shape_text-read (tuple_shape a) (vector_shape b) u v e =
      absurd (omega (arith, same_lead (tuple_shape a) (vector_shape b) u v e))

  elements_text-read :
      (s t : Shapes) (u v : Bytes)
      → elements_text s ++ (codes ">" ++ u) ≡ elements_text t ++ (codes ">" ++ v)
      → (s ≡ t) × (u ≡ v)
  elements_text-read nil nil u v e = (refl, ap rest_of e)
  elements_text-read nil (cons t ts) u v e =
      let letter = shape_text-lead t (further_text ts ++ (codes ">" ++ v)) in
      let first =
        ap first_of (e ∙ append_assoc (shape_text t) (further_text ts) (codes ">" ++ v)) in
      absurd (omega (arith, letter, first, lead_letter t))
  elements_text-read (cons s ss) nil u v e =
      let letter = shape_text-lead s (further_text ss ++ (codes ">" ++ u)) in
      let first =
        ap first_of (sym (append_assoc (shape_text s) (further_text ss) (codes ">" ++ u)) ∙ e) in
      absurd (omega (arith, letter, first, lead_letter s))
  elements_text-read (cons s ss) (cons t ts) u v e =
      let (same, rest) =
        shape_text-read s t (further_text ss ++ (codes ">" ++ u))
          (further_text ts ++ (codes ">" ++ v))
          (regroup (shape_text s) (further_text ss) (codes ">" ++ u) (shape_text t)
            (further_text ts) (codes ">" ++ v) e) in
      let (others, behind) = further_text-read ss ts u v rest in (rw (same, others) refl, behind)

  further_text-read :
      (s t : Shapes) (u v : Bytes)
      → further_text s ++ (codes ">" ++ u) ≡ further_text t ++ (codes ">" ++ v)
      → (s ≡ t) × (u ≡ v)
  further_text-read nil nil u v e = (refl, ap rest_of e)
  further_text-read nil (cons t ts) u v e = absurd (omega (arith, ap first_of e))
  further_text-read (cons s ss) nil u v e = absurd (omega (arith, ap first_of e))
  further_text-read (cons s ss) (cons t ts) u v e =
      let separated =
        drop_front (codes ", ") (shape_text s ++ further_text ss ++ (codes ">" ++ u))
          (shape_text t ++ further_text ts ++ (codes ">" ++ v)) e in
      let (same, rest) =
        shape_text-read s t (further_text ss ++ (codes ">" ++ u))
          (further_text ts ++ (codes ">" ++ v))
          (regroup (shape_text s) (further_text ss) (codes ">" ++ u) (shape_text t)
            (further_text ts) (codes ">" ++ v) separated) in
      let (others, behind) = further_text-read ss ts u v rest in (rw (same, others) refl, behind)

shape_text-injective : (s t : Shape) → shape_text s ≡ shape_text t → s ≡ t
shape_text-injective s t e = (shape_text-read s t [] [] (ap (λ text. text ++ []) e)).0

printed-text :
    (host : HostAnswers) (type : TypeArena) (v : TypeFormattingResult)
    → Prints host type v
    → v.ok ≡ true
    → v.formatted ≡ shape_text (type_shape type)
printed-text host type v (inl (printed, text)) ok = text
printed-text host type v (inr (failed, nothing, reason)) ok = absurd cc

format_type-text :
    (host : HostAnswers) (type : TypeArena) (v : TypeFormattingResult)
    → format_type host type ≡ some v
    → v.ok ≡ true
    → v.formatted ≡ shape_text (type_shape type)
format_type-text host type v e ok =
    let (w, result, prints) = format_type-Prints host type in
    let same : w ≡ v = some-injective _ _ (sym result ∙ e) in
    printed-text host type v (subst (λ (x : TypeFormattingResult). Prints host type x) same prints)
      ok

said-equal :
    (host : HostAnswers) (left right : TypeArena) (r : TypeEqualityResult)
    → Says host left right r
    → r.ok ≡ true
    → (r.equal ≡ true) ↔ (type_shape left ≡ type_shape right)
said-equal host left right r (inl (said, equal)) ok = equal
said-equal host left right r (inr (failed, nothing, reason)) ok = absurd cc

structural_type_equal-shapes :
    (host : HostAnswers) (left right : TypeArena) (r : TypeEqualityResult)
    → structural_type_equal host left right ≡ some r
    → r.ok ≡ true
    → (r.equal ≡ true) ↔ (type_shape left ≡ type_shape right)
structural_type_equal-shapes host left right r e ok =
    let (w, result, says) = structural_type_equal-Says host left right in
    let same : w ≡ r = some-injective _ _ (sym result ∙ e) in
    said-equal host left right r
      (subst (λ (x : TypeEqualityResult). Says host left right x) same says) ok

-- Two types that can be compared and formatted, with any answers of the host, are said to be equal
-- exactly when they have the same text.
pub structural_type_equal-format_type :
    (host host' host'' : HostAnswers) (left right : TypeArena) (v v' : TypeFormattingResult)
    (r : TypeEqualityResult)
    → format_type host left ≡ some v
    → v.ok ≡ true
    → format_type host' right ≡ some v'
    → v'.ok ≡ true
    → structural_type_equal host'' left right ≡ some r
    → r.ok ≡ true
    → (r.equal ≡ true) ↔ (v.formatted ≡ v'.formatted)
structural_type_equal-format_type host host' host'' left right v v' r e ok e' ok' er okr =
    let text = format_type-text host left v e ok in
    let text' = format_type-text host' right v' e' ok' in
    let equal = structural_type_equal-shapes host'' left right r er okr in
    (
      λ said. text ∙ ap shape_text (equal.0 said) ∙ sym text',
      λ same.
          equal.1
            (shape_text-injective (type_shape left) (type_shape right) (sym text ∙ same ∙ text')),
    )
