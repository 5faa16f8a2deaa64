-- ===== src/Tokenizer/Integers.antt =====
-- The decimal text of an integer, and the token that `numeric_token` of src/rewrite.cpp makes of it.
use bennu.Prelude.{
  ℕ, zero, suc, ◌+◌, ◌/◌, ◌%◌, ◌^◌, ◌≤◌, ◌<◌, ◌≡◌, refl, ap, ◌∙◌, Bool, true, false, [], ◌∷◌, none,
  some, Bytes, codes, if◌then◌else◌, ltb, ◌==◌, nat_eq, bytes_eq, arith, Bool-cases, inl, inr,
}
use bennu.Prelude.Int.{ℤ, pos, negsuc, is_int64}
use bennu.Tokenizer.Types.{
  RewritePosition, RewriteTokenKind, RewriteLiteralError, RewriteToken, make_token, is_digit,
}
use bennu.Tokenizer.Grammar.{
  all_digits, is_empty, canonical_digits, canonical_integer_grammar, digits_value,
  from_chars_integer, parse_canonical_integer,
}
use bennu.Tokenizer.Scan.{DoubleParser, numeric_token}

-- The decimal digits of the number, before the bytes `out`; as much fuel as the number is enough.
unfoldable pub emit : ℕ → ℕ → Bytes → Bytes
emit zero n out = (b'0' + n) ∷ out
emit (suc fuel) n out =
    let rest = emit fuel (n / 10) ((b'0' + n % 10) ∷ out) in
    if ltb n 10 then (b'0' + n) ∷ out else rest

unfoldable pub decimal : ℤ → Bytes
decimal (pos n) = emit n n []
decimal (negsuc n) = b'-' ∷ emit (suc n) (suc n) []

emit-step :
    (fuel n : ℕ) (out : Bytes)
    → (ltb n 10) ≡ false
    → emit (suc fuel) n out ≡ emit fuel (n / 10) ((b'0' + n % 10) ∷ out)
unfolding emit
emit-step fuel n out h = rw h refl

emit-digit : (fuel n : ℕ) (out : Bytes) → (ltb n 10) ≡ true → emit fuel n out ≡ (b'0' + n) ∷ out
unfolding emit
emit-digit zero n out h = refl
emit-digit (suc fuel) n out h = rw h refl

digits_value-last :
    (n : ℕ) (out : Bytes) → digits_value ((b'0' + n % 10) ∷ out) (n / 10) ≡ digits_value out n
unfolding digits_value
digits_value-last n out = ap (λ (m : ℕ). digits_value out m) (omega arith)

digits_value-first : (n : ℕ) (out : Bytes) → digits_value ((b'0' + n) ∷ out) 0 ≡ digits_value out n
unfolding digits_value
digits_value-first n out = ap (λ (m : ℕ). digits_value out m) (omega arith)

tenth_shorter : (fuel n : ℕ) → n ≤ suc fuel → ltb n 10 ≡ false → n / 10 ≤ fuel
tenth_shorter fuel n h e = ground arith

tenth_positive : (n : ℕ) → ltb n 10 ≡ false → 0 < n / 10
tenth_positive n e = ground arith

more_digits :
    (n : ℕ) (out : Bytes) → all_digits out ≡ true → all_digits ((b'0' + n % 10) ∷ out) ≡ true
unfolding all_digits is_digit
more_digits n out h = ground arith

first_digit :
    (n : ℕ) (out : Bytes) (has_sign : Bool)
    → 0 < n
    → ltb n 10 ≡ true
    → all_digits out ≡ true
    → canonical_digits has_sign ((b'0' + n) ∷ out) ≡ true
unfolding canonical_digits
first_digit n out has_sign positive e h = ground arith

digits_value-emit :
    (fuel n : ℕ) (out : Bytes) → n ≤ fuel → digits_value (emit fuel n out) 0 ≡ digits_value out n
digits_value-emit zero n out h =
    rw (emit-digit zero n out (ground arith)) (digits_value-first n out)
digits_value-emit (suc fuel) n out h = elim (Bool-cases (ltb n 10)) [
  | inl e ↦ rw (emit-digit (suc fuel) n out e) (digits_value-first n out)
  | inr e ↦ rw (emit-step fuel n out e) (
      digits_value-emit fuel (n / 10) ((b'0' + n % 10) ∷ out) (tenth_shorter fuel n h e)
      ∙ digits_value-last n out)
]

-- A number above zero begins with a digit above zero.
canonical_digits-emit :
    (fuel n : ℕ) (out : Bytes) (has_sign : Bool)
    → n ≤ fuel
    → 0 < n
    → all_digits out ≡ true
    → canonical_digits has_sign (emit fuel n out) ≡ true
canonical_digits-emit zero n out has_sign h positive digits = absurd (omega arith)
canonical_digits-emit (suc fuel) n out has_sign h positive digits = elim (Bool-cases (ltb n 10)) [
  | inl e ↦ rw (emit-digit (suc fuel) n out e) (first_digit n out has_sign positive e digits)
  | inr e ↦ rw (emit-step fuel n out e) (
      canonical_digits-emit fuel (n / 10) ((b'0' + n % 10) ∷ out) has_sign
        (tenth_shorter fuel n h e) (tenth_positive n e) (more_digits n out digits))
]

-- A text without a sign is read from its first byte on.
unsigned-grammar :
    (bs : Bytes) → canonical_digits false bs ≡ true → canonical_integer_grammar bs ≡ true
unfolding canonical_integer_grammar canonical_digits
unsigned-grammar [] h = ground arith
unsigned-grammar (b ∷ bs) h = ground arith

unsigned-from_chars :
    (bs : Bytes)
    → canonical_digits false bs ≡ true
    → from_chars_integer bs
      ≡ (if ltb (digits_value bs 0) (2 ^ 63) then some (pos (digits_value bs 0)) else none)
unfolding from_chars_integer canonical_digits
unsigned-from_chars [] h = ground arith
unsigned-from_chars (b ∷ bs) h = ground arith

decimal_digits : (n : ℕ) (has_sign : Bool) → 0 < n → canonical_digits has_sign (emit n n []) ≡ true
unfolding all_digits
decimal_digits n has_sign h = canonical_digits-emit n n [] has_sign (omega arith) h refl

decimal_unsigned : (n : ℕ) → canonical_digits false (emit n n []) ≡ true
unfolding emit canonical_digits is_empty
decimal_unsigned zero = refl
decimal_unsigned (suc n) = decimal_digits (suc n) false (omega arith)

decimal_value : (n : ℕ) → digits_value (emit n n []) 0 ≡ n
unfolding digits_value
decimal_value n = digits_value-emit n n [] (omega arith)

canonical_integer_grammar-decimal : (z : ℤ) → canonical_integer_grammar (decimal z) ≡ true
unfolding canonical_integer_grammar decimal
canonical_integer_grammar-decimal (pos n) = unsigned-grammar (emit n n []) (decimal_unsigned n)
canonical_integer_grammar-decimal (negsuc n) = decimal_digits (suc n) true (omega arith)

from_chars_integer-decimal :
    (z : ℤ) → from_chars_integer (decimal z) ≡ (if is_int64 z then some z else none)
unfolding from_chars_integer decimal is_int64
from_chars_integer-decimal (pos n) =
    unsigned-from_chars (emit n n []) (decimal_unsigned n) ∙ rw (decimal_value n) refl
from_chars_integer-decimal (negsuc n) = rw (decimal_value (suc n)) (ground arith)

parse_canonical_integer-decimal :
    (z : ℤ) → parse_canonical_integer (decimal z) ≡ (if is_int64 z then some z else none)
unfolding parse_canonical_integer
parse_canonical_integer-decimal z =
    rw (canonical_integer_grammar-decimal z) (from_chars_integer-decimal z)

infinity-refused : canonical_integer_grammar (codes "-inf") ≡ false
unfolding canonical_integer_grammar canonical_digits
infinity-refused = refl

not_infinity : (z : ℤ) → (decimal z == codes "-inf") ≡ false
not_infinity z = elim (Bool-cases (decimal z == codes "-inf")) [
  | inl e ↦
      let same : decimal z ≡ codes "-inf" = (bytes_eq.test_iff (decimal z) (codes "-inf")).0 e in
      let accepted = canonical_integer_grammar-decimal z in let refused = infinity-refused in cc
  | inr e ↦ e
]

-- The integer that a literal token holds, or the token of an integer literal out of range.
abbrev pub integer_token : ℤ → RewritePosition → RewritePosition → RewriteToken
integer_token z begin end =
    if is_int64 z
    then record (make_token RewriteTokenKind.int_literal begin end) { integer = z }
    else record (make_token RewriteTokenKind.malformed_literal begin end) {
      literal_error = RewriteLiteralError.range;
    }

-- The decimal text of an integer, with a minus sign below zero and no leading zero, is the literal
-- of that integer if `std::int64_t` holds it, and a literal refused with the range error otherwise.
pub numeric_token-decimal :
    (parser : DoubleParser) (z : ℤ) (begin end : RewritePosition)
    → numeric_token parser (decimal z) begin end ≡ integer_token z begin end
unfolding numeric_token make_token
numeric_token-decimal parser z begin end = elim (Bool-cases (is_int64 z)) [
  | inl e ↦
      let parsed : parse_canonical_integer (decimal z) ≡ some z =
        (rw e at (parse_canonical_integer-decimal z)) in
      rw (not_infinity z) (rw parsed (rw e refl))
  | inr e ↦
      let parsed : parse_canonical_integer (decimal z) ≡ none =
        (rw e at (parse_canonical_integer-decimal z)) in
      rw (not_infinity z) (rw parsed (rw (canonical_integer_grammar-decimal z) (rw e refl)))
]
