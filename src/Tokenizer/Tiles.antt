-- ===== src/Tokenizer/Tiles.antt =====
-- The tokens of `tokenize_rewrite` of src/rewrite.cpp cover the source: an account of positions and
-- of spans that is independent of the tokenizer's.
use bennu.Prelude.{
  ℕ, zero, suc, ◌≤◌, ◌<◌, ◌≡◌, refl, sym, ap, ◌∙◌, List, [], ◌∷◌, ◌++◌, Option, none, some, Bytes,
  length, nat_eq, arith,
}
use bennu.Tokenizer.Types.{RewritePosition, RewriteToken, RewriteTokens}
use bennu.Tokenizer.Scan.{
  Scanned, scan_token, DoubleParser, tokenize_from, tokenize_rewrite, push_token, start,
}
use bennu.Tokenizer.Positions.{position_after, position_after-append}
use bennu.Tokenizer.Covers.{Covers, scan_token-Covers}

-- The tokens' spellings, none of them empty, make up the source, and each span is from the position
-- before the spelling to the one behind it.
abbrev pub Tiles : RewritePosition → List RewriteToken → Bytes → RewritePosition → Type 0
Tiles p [] source end = (source ≡ []) × (end ≡ p)
Tiles p (token ∷ tokens) source end =
    (spelling : Bytes) × (rest : Bytes) × (source ≡ spelling ++ rest)
    × (0 < length spelling)
    × (token.span.begin ≡ p)
    × (token.span.end ≡ position_after p spelling)
    × Tiles (position_after p spelling) tokens rest end

Tiles-end :
    (p : RewritePosition) (tokens : List RewriteToken) (source : Bytes) (end : RewritePosition)
    → Tiles p tokens source end
    → end ≡ position_after p source
unfolding position_after
Tiles-end p [] source end (is_empty, at_end) = rw is_empty at_end
Tiles-end p (token ∷ tokens) source end (spelling, rest, splits, _, _, _, tiles) = rw splits (
    Tiles-end (position_after p spelling) tokens rest end tiles
    ∙ sym (position_after-append p spelling rest))

push_token-Tiles :
    (p : RewritePosition) (source : Bytes) (s : Scanned) (result : RewriteTokens)
    → Covers p source s
    → Tiles s.position result.tokens s.source_left result.end
    → Tiles p (push_token s.token result).tokens source (push_token s.token result).end
unfolding push_token
push_token-Tiles p source s result c tiles = (
  c.spelling,
  s.source_left,
  c.splits,
  c.nonempty,
  c.begin_eq,
  c.end_eq,
  (rw c.position_eq at (tiles)),
)

module _ (parser : DoubleParser) where
  tokenize_from-step :
      (fuel : ℕ) (p : RewritePosition) (byte : ℕ) (bytes : Bytes) (result : RewriteTokens)
      → let s = scan_token parser p byte bytes in
        tokenize_from parser fuel s.position s.source_left ≡ some result
        → tokenize_from parser (suc fuel) p (byte ∷ bytes) ≡ some (push_token s.token result)
  unfolding tokenize_from
  tokenize_from-step fuel p byte bytes result e =
      ap
        (λ (o : Option RewriteTokens). elim o [
          | none ↦ none
          | some rest ↦ some (push_token (scan_token parser p byte bytes).token rest)
        ])
        e

  -- With fuel for every byte the loop ends, and its tokens tile what it reads.
  tokenize_from-Tiles :
      (fuel : ℕ) (p : RewritePosition) (source : Bytes)
      → length source ≤ fuel
      → (result : RewriteTokens) × (tokenize_from parser fuel p source ≡ some result)
        × Tiles p result.tokens source result.end
  unfolding tokenize_from
  tokenize_from-Tiles fuel p [] h = (record { tokens = []; end = p }, refl, (refl, refl))
  tokenize_from-Tiles zero p (byte ∷ bytes) h = absurd (omega arith)
  tokenize_from-Tiles (suc fuel) p (byte ∷ bytes) h =
      let s = scan_token parser p byte bytes in
      let c = scan_token-Covers parser p byte bytes in
      let (result, e, tiles) =
        tokenize_from-Tiles fuel s.position s.source_left (omega (arith, c.shorter)) in
      (
        push_token s.token result,
        tokenize_from-step fuel p byte bytes result e,
        push_token-Tiles p (byte ∷ bytes) s result c tiles,
      )

  -- The tokenizer ends on every source with fuel for its bytes, and its tokens tile the source:
  -- their spellings are not empty and make up the source in order, the span of each begins where the
  -- span before it ends, the first at offset 1, line 1 and column 1, and every offset, line and
  -- column is the one that counting bytes and line feeds gives, as is the end of the whole.
  pub tokenize_rewrite-Tiles :
      (source : Bytes)
      → (result : RewriteTokens) × (tokenize_rewrite parser source ≡ some result)
        × Tiles start result.tokens source result.end
        × (result.end ≡ position_after start source)
  unfolding tokenize_rewrite
  tokenize_rewrite-Tiles source =
      let (result, e, tiles) = tokenize_from-Tiles (length source) start source (omega arith) in
      (result, e, tiles, Tiles-end start result.tokens source result.end tiles)
