-- ===== src/Parser.antt =====
-- The parser of src/rewrite.cpp: from `RewriteNodeKind` to `parse_rewrite`.
pub mod Types
pub mod Spans
pub mod Vector
pub mod Header
pub mod Finish
pub mod Closing
pub mod Atoms
pub mod Loop
pub mod Ends
pub mod Terminates
pub mod Ordered
pub mod Inside
pub mod Expressions
pub mod Arena
pub mod Safe
pub mod References
pub mod Placeholders
pub mod Branches
pub mod Resolve
pub mod Resolved
