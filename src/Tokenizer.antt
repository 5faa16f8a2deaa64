-- ===== src/Tokenizer.antt =====
-- The tokenizer of the rewrite language: src/rewrite.cpp, from `RewritePosition` to
-- `tokenize_rewrite`. Types holds the data and the tests on bytes, Grammar the grammars of numbers,
-- Decimal the decimal exponents, Scan the tokenizer, and the other children the proofs.
pub mod Types
pub mod Grammar
pub mod Decimal
pub mod Scan
pub mod Positions
pub mod Covers
pub mod Tiles
pub mod Integers
