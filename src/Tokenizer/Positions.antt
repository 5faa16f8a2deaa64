-- ===== src/Tokenizer/Positions.antt =====
-- Positions in a source, byte by byte, and the loops of `tokenize_rewrite` of src/rewrite.cpp.
use bennu.Prelude.{
  ℕ, suc, ◌+◌, ◌≤◌, ◌≡◌, refl, ap, ◌∙◌, Bool, true, false, [], ◌∷◌, ◌++◌, Bytes, length,
  length-append, if◌then◌else◌, ◌==◌, nat_eq, arith, Bool-cases, inl, inr,
}
use bennu.Tokenizer.Types.{
  RewritePosition, advance, next_line, is_lowercase, is_uppercase, is_digit, is_horizontal_space,
  is_numeric_candidate_byte, is_name_byte, is_word_byte,
}
use bennu.Tokenizer.Scan.{run}

-- The position behind one byte: a line feed begins a line.
abbrev pub position_after_byte : RewritePosition → ℕ → RewritePosition
position_after_byte p byte =
    if byte == 10
    then record { offset = p.offset + 1; line = p.line + 1; column = 1 }
    else record p { offset = p.offset + 1; column = p.column + 1 }

unfoldable pub position_after : RewritePosition → Bytes → RewritePosition
position_after p [] = p
position_after p (byte ∷ bytes) = position_after (position_after_byte p byte) bytes

-- A line feed fails the test.
abbrev pub EndsLine : (ℕ → Bool) → Type 0
EndsLine test = test 10 ≡ false

pub run-splits : (test : ℕ → Bool) (bs : Bytes) → (run test bs).passed ++ (run test bs).left ≡ bs
unfolding run
run-splits test [] = refl
run-splits test (b ∷ bs) = elim (Bool-cases (test b)) [
  | inl e ↦ rw e (ap (λ (xs : Bytes). b ∷ xs) (run-splits test bs))
  | inr e ↦ rw e refl
]

pub run-shorter : (test : ℕ → Bool) (bs : Bytes) → length (run test bs).left ≤ length bs
run-shorter test bs =
    let total = ap (λ (xs : Bytes). length xs) (run-splits test bs) in
    omega (arith, total, length-append (run test bs).passed (run test bs).left)

pub advance-byte :
    (p : RewritePosition) (b n : ℕ)
    → (b == 10) ≡ false
    → advance (position_after_byte p b) n ≡ advance p (suc n)
unfolding advance
advance-byte p b n h = ground arith

pub advance-zero : (p : RewritePosition) → p ≡ advance p 0
unfolding advance
advance-zero p = ground arith

pub stays_on_line : (test : ℕ → Bool) → EndsLine test → (b : ℕ) → test b ≡ true → (b == 10) ≡ false
stays_on_line test h b e = elim (Bool-cases (b == 10)) [
  | inl at_feed ↦ let b-is-feed : b ≡ 10 = (nat_eq.test_iff b 10).0 at_feed in cc
  | inr off ↦ off
]

pub run-advance :
    (test : ℕ → Bool)
    → EndsLine test
    → (p : RewritePosition) (bs : Bytes)
    → position_after p (run test bs).passed ≡ advance p (length (run test bs).passed)
unfolding run position_after
run-advance test h p [] = advance-zero p
run-advance test h p (b ∷ bs) = elim (Bool-cases (test b)) [
  | inl e ↦ rw e (
      run-advance test h (position_after_byte p b) bs
      ∙ advance-byte p b (length (run test bs).passed) (stays_on_line test h b e))
  | inr e ↦ rw e (advance-zero p)
]

pub one_byte :
    (p : RewritePosition) (byte : ℕ)
    → (byte == 10) ≡ false
    → advance p 1 ≡ position_after p (byte ∷ [])
unfolding advance position_after
one_byte p byte off = ground arith

-- The tests of the loops stop at a line feed.
pub runs_end :
    EndsLine is_horizontal_space
    × EndsLine is_name_byte
    × EndsLine is_word_byte
    × EndsLine is_numeric_candidate_byte
unfolding is_horizontal_space is_name_byte is_word_byte is_numeric_candidate_byte is_lowercase
    is_uppercase is_digit
runs_end = (refl, refl, refl, refl)

pub feed-position :
    (p : RewritePosition) (byte : ℕ)
    → (byte == 10) ≡ true
    → next_line p 1 ≡ position_after p (byte ∷ [])
unfolding next_line position_after
feed-position p byte feed = ground arith

pub position_after-append :
    (p : RewritePosition) (xs ys : Bytes)
    → position_after p (xs ++ ys) ≡ position_after (position_after p xs) ys
unfolding position_after
position_after-append p [] ys = refl
position_after-append p (x ∷ xs) ys = position_after-append (position_after_byte p x) xs ys
