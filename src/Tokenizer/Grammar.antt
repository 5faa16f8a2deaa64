-- ===== src/Tokenizer/Grammar.antt =====
-- `canonical_integer_grammar`, `parse_canonical_integer` and `finite_double_grammar` of
-- src/rewrite.cpp. An index into the spelling is the list of the bytes from it on.
use bennu.Prelude.{
  ℕ, ◌+◌, ◌-◌, ◌*◌, ◌^◌, Bool, true, false, not, ◌&&◌, ◌||◌, [], ◌∷◌, Option, none, some, Bytes,
  length, ltb, leb, if◌then◌else◌, ◌==◌, nat_eq,
}
use bennu.Prelude.Int.{ℤ, pos, neg_ℕ}
use bennu.Tokenizer.Types.{is_digit}

unfoldable pub is_empty : Bytes → Bool
is_empty [] = true
is_empty (b ∷ bs) = false

unfoldable pub all_digits : Bytes → Bool
all_digits [] = true
all_digits (b ∷ bs) = is_digit b && all_digits bs

-- The grammar from the index `digit` on, which is past a minus sign if `has_sign`.
unfoldable pub canonical_digits : Bool → Bytes → Bool
unfolding is_empty all_digits
canonical_digits has_sign [] = false
canonical_digits has_sign (b ∷ bs) =
    if b == b'0'
    then is_empty bs && not has_sign
    else if ltb b b'1' || ltb b'9' b
    then false
    else all_digits bs

unfoldable pub canonical_integer_grammar : Bytes → Bool
unfolding canonical_digits
canonical_integer_grammar [] = canonical_digits false []
canonical_integer_grammar (b ∷ bs) =
    if b == b'-' then canonical_digits true bs else canonical_digits false (b ∷ bs)

unfoldable pub digits_value : Bytes → ℕ → ℕ
digits_value [] value = value
digits_value (b ∷ bs) value = digits_value bs (value * 10 + (b - b'0'))

-- `std::from_chars` on an optional minus sign and digits, to a `std::int64_t`: nothing if the
-- number is out of range.
unfoldable pub from_chars_integer : Bytes → Option ℤ
from_chars_integer [] = none
from_chars_integer (b ∷ bs) =
    if b == b'-'
    then (if leb (digits_value bs 0) (2 ^ 63) then some (neg_ℕ (digits_value bs 0)) else none)
    else if ltb (digits_value (b ∷ bs) 0) (2 ^ 63)
    then some (pos (digits_value (b ∷ bs) 0))
    else none

unfoldable pub parse_canonical_integer : Bytes → Option ℤ
unfolding canonical_integer_grammar from_chars_integer
parse_canonical_integer spelling =
    if not (canonical_integer_grammar spelling) then none else from_chars_integer spelling

-- The loop over digits.
unfoldable pub skip_digits : Bytes → Bytes
skip_digits [] = []
skip_digits (b ∷ bs) = let rest = skip_digits bs in if is_digit b then rest else b ∷ bs

-- The same loop where the source refuses a text with no digit.
unfoldable pub skip_some_digits : Bytes → Option Bytes
unfolding skip_digits
skip_some_digits [] = none
skip_some_digits (b ∷ bs) = if is_digit b then some (skip_digits bs) else none

unfoldable pub skip_exponent_sign : Bytes → Bytes
skip_exponent_sign [] = []
skip_exponent_sign (b ∷ bs) = if (b == b'+') || (b == b'-') then bs else b ∷ bs

unfoldable pub exponent_grammar : Bool → Bytes → Bool
unfolding skip_some_digits skip_exponent_sign is_empty
exponent_grammar has_fraction [] = has_fraction
exponent_grammar has_fraction (b ∷ bs) =
    if (b == b'e') || (b == b'E')
    then elim (skip_some_digits (skip_exponent_sign bs)) [
      | none ↦ false
      | some rest ↦ is_empty rest
    ]
    else false

unfoldable pub fraction_grammar : Bytes → Bool
unfolding skip_some_digits exponent_grammar
fraction_grammar [] = false
fraction_grammar (b ∷ bs) =
    if b == b'.'
    then elim (skip_some_digits bs) [ none ↦ false | some rest ↦ exponent_grammar true rest ]
    else exponent_grammar false (b ∷ bs)

-- The grammar from `integer_begin` on.
unfoldable pub unsigned_double_grammar : Bytes → Bool
unfolding skip_digits fraction_grammar
unsigned_double_grammar [] = false
unsigned_double_grammar (b ∷ bs) =
    let rest = skip_digits bs in
    if not (is_digit b)
    then false
    else if (b == b'0') && not (length rest == length bs)
    then false
    else fraction_grammar rest

unfoldable pub skip_minus : Bytes → Bytes
skip_minus [] = []
skip_minus (b ∷ bs) = if b == b'-' then bs else b ∷ bs

unfoldable pub finite_double_grammar : Bytes → Bool
unfolding skip_minus unsigned_double_grammar
finite_double_grammar spelling = unsigned_double_grammar (skip_minus spelling)
