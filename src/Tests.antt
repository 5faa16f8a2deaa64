-- ===== src/Tests.antt =====
-- Runs of the modelled code, and each property at a concrete input.
mod Primitives
mod Tokenizer
mod TypeArena
mod Resources
mod Application
mod Parser
