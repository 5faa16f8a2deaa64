-- ===== src/Tokenizer/Covers.antt =====
-- What one pass of the loop of `tokenize_rewrite` of src/rewrite.cpp covers.
use bennu.Prelude.{
  ℕ, ◌<◌, ◌≡◌, refl, sym, ap, ◌∙◌, Bool, true, false, [], ◌∷◌, ◌++◌, Bytes, length, length-append,
  if◌then◌else◌, ◌==◌, nat_eq, arith, ◌&&◌, ◌||◌,
}
use bennu.Tokenizer.Types.{
  RewritePosition, RewriteSpan, RewriteTokenKind, RewriteLiteralError, RewriteToken, make_token,
  advance, next_line, is_lowercase, is_uppercase, is_digit, is_horizontal_space,
  is_numeric_candidate_byte, is_name_byte, is_word_byte,
}
use bennu.Tokenizer.Scan.{
  run, Scanned, scan_run, scan_single, scan_token, name_token, double_token, numeric_token,
  DoubleParser, starts_line_feed, drop_one, type_kind, punctuation_kind,
}
use bennu.Tokenizer.Positions.{
  position_after_byte, position_after, EndsLine, run-splits, run-shorter, advance-byte,
  stays_on_line, run-advance, one_byte, runs_end, feed-position,
}

-- A scanned token covers a first part of the bytes, which is not empty.
pub record Covers (p : RewritePosition) (source : Bytes) (s : Scanned) : Type 0 where
  pub spelling : Bytes
  pub splits : source ≡ spelling ++ s.source_left
  pub nonempty : 0 < length spelling
  pub begin_eq : s.token.span.begin ≡ p
  pub end_eq : s.token.span.end ≡ position_after p spelling
  pub position_eq : s.position ≡ position_after p spelling
  pub shorter : length s.source_left < length source

-- The function builds tokens of the span that it is given.
abbrev KeepsSpan : (Bytes → RewritePosition → RewritePosition → RewriteToken) → Type 0
KeepsSpan token =
    (spelling : Bytes) (begin end : RewritePosition)
    → (token spelling begin end).span ≡ record { begin = begin; end = end }

make_token-KeepsSpan : (kind : Bytes → RewriteTokenKind) → KeepsSpan (λ s. make_token (kind s))
unfolding make_token
make_token-KeepsSpan kind spelling begin end = refl

name_token-KeepsSpan : KeepsSpan name_token
unfolding name_token make_token
name_token-KeepsSpan spelling begin end = ground arith

double_token-span :
    (parser : DoubleParser) (spelling : Bytes) (token : RewriteToken)
    → (double_token parser spelling token).span ≡ token.span
unfolding double_token
double_token-span parser spelling token = ground arith

numeric_token-KeepsSpan : (parser : DoubleParser) → KeepsSpan (numeric_token parser)
unfolding numeric_token make_token
numeric_token-KeepsSpan parser spelling begin end = ground (
  arith,
  double_token-span parser spelling
      (record (make_token RewriteTokenKind.malformed_literal begin end) {
        literal_error = RewriteLiteralError.malformed;
      }),
)

scan_run-Covers :
    (test : ℕ → Bool) (token : Bytes → RewritePosition → RewritePosition → RewriteToken)
    → KeepsSpan token
    → EndsLine test
    → (p : RewritePosition) (byte : ℕ) → (byte == 10) ≡ false
    → (bytes : Bytes) → Covers p (byte ∷ bytes) (scan_run test token p byte bytes)
unfolding scan_run position_after
scan_run-Covers test token keeps ends p byte off bytes =
    let r = run test bytes in
    let spelling = byte ∷ r.passed in
    let after : advance p (length spelling) ≡ position_after p spelling = sym (
      run-advance test ends (position_after_byte p byte) bytes
      ∙ advance-byte p byte (length r.passed) off) in
    let span_eq = keeps spelling p (advance p (length spelling)) in
    record {
      spelling = spelling;
      splits = ap (λ (xs : Bytes). byte ∷ xs) (sym (run-splits test bytes));
      nonempty = omega arith;
      begin_eq = ap (λ (s : RewriteSpan). s.begin) span_eq;
      end_eq = ap (λ (s : RewriteSpan). s.end) span_eq ∙ after;
      position_eq = after;
      shorter = omega (arith, run-shorter test bytes);
    }

scan_single-Covers :
    (kind : RewriteTokenKind) (p q : RewritePosition) (spelling bytes : Bytes)
    → 0 < length spelling
    → q ≡ position_after p spelling
    → Covers p (spelling ++ bytes) (scan_single kind p q bytes)
unfolding scan_single make_token
scan_single-Covers kind p q spelling bytes some_bytes after = record {
  spelling = spelling;
  splits = refl;
  nonempty = some_bytes;
  begin_eq = refl;
  end_eq = after;
  position_eq = after;
  shorter = omega (arith, length-append spelling bytes);
}

return_feed-Covers :
    (p : RewritePosition) (byte : ℕ) (bytes : Bytes)
    → ((byte == 13) && starts_line_feed bytes) ≡ true
    → Covers p
        (byte ∷ bytes)
        (scan_single RewriteTokenKind.line_terminator p (next_line p 2) (drop_one bytes))
unfolding starts_line_feed next_line position_after
return_feed-Covers p byte [] h = absurd (ground arith)
return_feed-Covers p byte (b ∷ bytes) h =
    scan_single-Covers RewriteTokenKind.line_terminator p (next_line p 2) (byte ∷ b ∷ []) bytes
      (omega arith) (ground arith)

if-elim {ℓ κ} :
    {A : Type ℓ} (P : A → Type κ) (c : Bool) (x y : A)
    → (c ≡ true → P x)
    → (c ≡ false → P y)
    → P (if c then x else y)
if-elim P true x y h k = h refl
if-elim P false x y h k = k refl

module _ (parser : DoubleParser) where
  pub scan_token-Covers :
      (p : RewritePosition) (byte : ℕ) (bytes : Bytes)
      → Covers p (byte ∷ bytes) (scan_token parser p byte bytes)
  unfolding scan_token
  scan_token-Covers p byte bytes =
      let C = Covers p (byte ∷ bytes) in
      let space = λ (s : Bytes). make_token RewriteTokenKind.horizontal_space in
      let typed = λ (s : Bytes). make_token (type_kind s) in
      let single = λ (kind : RewriteTokenKind) (off : (byte == 10) ≡ false).
        scan_single-Covers kind p (advance p 1) (byte ∷ []) bytes (omega arith)
          (one_byte p byte off) in
      if-elim C (is_horizontal_space byte) _ _
        (λ e.
          scan_run-Covers is_horizontal_space space
            (make_token-KeepsSpan (λ s. RewriteTokenKind.horizontal_space)) runs_end.0 p byte
            (stays_on_line is_horizontal_space runs_end.0 byte e) bytes)
        (λ _.
          if-elim C (byte == 10) _ _
            (λ e.
              scan_single-Covers RewriteTokenKind.line_terminator p (next_line p 1) (byte ∷ [])
                bytes (omega arith) (feed-position p byte e))
            (λ off.
              if-elim C ((byte == 13) && starts_line_feed bytes) _ _
                (return_feed-Covers p byte bytes)
                (λ _.
                  if-elim C (is_lowercase byte) _ _
                    (λ _.
                      scan_run-Covers is_name_byte name_token name_token-KeepsSpan runs_end.1 p byte
                        off bytes)
                    (λ _.
                      if-elim C (byte == b'_') _ _ (λ _. single RewriteTokenKind.placeholder off)
                        (λ _.
                          if-elim C (is_uppercase byte) _ _
                            (λ _.
                              scan_run-Covers is_word_byte typed (make_token-KeepsSpan type_kind)
                                runs_end.2 p byte off bytes)
                            (λ _.
                              if-elim C
                                (is_digit byte
                                  || ((byte == b'-') || ((byte == b'+') || (byte == b'.'))))
                                _ _
                                (λ _.
                                  scan_run-Covers is_numeric_candidate_byte (numeric_token parser)
                                    (numeric_token-KeepsSpan parser) runs_end.3 p byte off bytes)
                                (λ _. single (punctuation_kind byte) off)))))))
