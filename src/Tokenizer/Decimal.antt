-- ===== src/Tokenizer/Decimal.antt =====
-- `decimal_scientific_exponent` and `decimal_rounds_to_zero` of src/rewrite.cpp: whether a decimal
-- text that the conversion found out of range is too small for a double.
use bennu.Prelude.{
  ℕ, zero, suc, ◌+◌, ◌-◌, ◌*◌, Bool, true, false, not, ◌&&◌, ◌||◌, [], ◌∷◌, Option, none, some,
  Bytes, codes, get_elem?, ltb, if◌then◌else◌, ◌==◌, nat_eq,
}
use bennu.Prelude.Int.{ℤ, pos, neg_ℕ, ◌+ℤ◌, ◌-ℤ◌, ltb_ℤ, eqb_ℤ}
use bennu.Tokenizer.Grammar.{skip_minus}

unfoldable pub is_exponent_mark : ℕ → Bool
is_exponent_mark byte = (byte == b'e') || (byte == b'E')

-- The variables of the loop over the digits; `first_nonzero` is nothing where the source has
-- `missing`, and `digits_before_decimal` where it has met no point (the grammar of the text allows
-- none behind the exponent mark, where `find` would see it too).
pub record Digits : Type 0 where
  pub digits_before_decimal : Option ℕ
  pub digit_ordinal : ℕ
  pub first_nonzero : Option ℕ
  pub exponent_text : Bytes

unfoldable pub count_digit : ℕ → Digits → Digits
count_digit byte d = record d {
  digit_ordinal = d.digit_ordinal + 1;
  first_nonzero = elim d.first_nonzero [
    | some ordinal ↦ some ordinal
    | none ↦ if byte == b'0' then none else some d.digit_ordinal
  ];
}

unfoldable pub scan_digits : Bytes → Digits → Digits
unfolding is_exponent_mark count_digit
scan_digits [] d = d
scan_digits (byte ∷ bytes) d =
    let counted = scan_digits bytes (count_digit byte d) in
    let marked = scan_digits bytes (record d { digits_before_decimal = some d.digit_ordinal }) in
    if is_exponent_mark byte
    then record d { exponent_text = bytes }
    else if byte == b'.'
    then marked
    else counted

-- The exponent stays below 10 ^ 7 whatever its length.
unfoldable pub exponent_digits : Bytes → ℕ → ℕ
exponent_digits [] explicit_exponent = explicit_exponent
exponent_digits (b ∷ bs) explicit_exponent = exponent_digits bs (
    if ltb explicit_exponent 1000000
    then explicit_exponent * 10 + (b - b'0')
    else explicit_exponent)

unfoldable pub explicit_exponent : Bytes → ℤ
unfolding exponent_digits
explicit_exponent [] = pos 0
explicit_exponent (b ∷ bs) =
    if b == b'-'
    then neg_ℕ (exponent_digits bs 0)
    else if b == b'+'
    then pos (exponent_digits bs 0)
    else pos (exponent_digits (b ∷ bs) 0)

unfoldable pub at_most_million : ℕ → ℤ
at_most_million n = if ltb 1000000 n then pos 1000000 else pos n

unfoldable pub decimal_scientific_exponent : Bytes → ℤ
unfolding scan_digits explicit_exponent at_most_million
decimal_scientific_exponent spelling =
    let d = scan_digits (skip_minus spelling) (record {
      digits_before_decimal = none;
      digit_ordinal = 0;
      first_nonzero = none;
      exponent_text = [];
    }) in
    elim d.first_nonzero [
      | none ↦ pos 0
      | some first_nonzero ↦
          explicit_exponent d.exponent_text
          +ℤ at_most_million
              (elim d.digits_before_decimal [ none ↦ d.digit_ordinal | some before ↦ before ])
          -ℤ at_most_million first_nonzero
          -ℤ pos 1
    ]

abbrev pub half_minimum_subnormal : Bytes
half_minimum_subnormal =
    codes "24703282292062327208828439643411068618252990130716238221279284125033775"

unfoldable pub threshold_digit : ℕ → ℕ
threshold_digit significant_index = elim (get_elem? half_minimum_subnormal significant_index) [
  | none ↦ b'0'
  | some digit ↦ digit
]

-- The last loop, over the digits of the threshold that the text does not reach, and the return.
unfoldable pub threshold_remains : Bytes → ℕ → Bool
threshold_remains [] significant_index = true
threshold_remains (b ∷ bs) zero = if not (b == b'0') then true else threshold_remains bs zero
threshold_remains (b ∷ bs) (suc significant_index) = threshold_remains bs significant_index

unfoldable pub compare_digits : Bytes → ℕ → Bool → Bool
unfolding threshold_digit threshold_remains is_exponent_mark
compare_digits [] significant_index found_nonzero =
    threshold_remains half_minimum_subnormal significant_index
compare_digits (b ∷ bs) significant_index found_nonzero =
    let next = compare_digits bs (significant_index + 1) true in
    let same = compare_digits bs significant_index found_nonzero in
    if is_exponent_mark b
    then threshold_remains half_minimum_subnormal significant_index
    else if b == b'.'
    then same
    else if (b == b'0') && not found_nonzero
    then same
    else if ltb b (threshold_digit significant_index)
    then true
    else if ltb (threshold_digit significant_index) b
    then false
    else next

unfoldable pub decimal_rounds_to_zero : Bytes → Bool
unfolding decimal_scientific_exponent compare_digits
decimal_rounds_to_zero spelling =
    let exponent = decimal_scientific_exponent spelling in
    if ltb_ℤ exponent (neg_ℕ 324)
    then true
    else if not (eqb_ℤ exponent (neg_ℕ 324))
    then false
    else compare_digits (skip_minus spelling) 0 false
