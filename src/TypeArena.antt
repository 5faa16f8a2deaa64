-- ===== src/TypeArena.antt =====
-- Types in a flat arena: include/bennu/type.hpp and src/type.cpp.
pub mod Types
pub mod Validate
pub mod Ends
pub mod Postorder
pub mod Accepted
pub mod Shape
pub mod Sizes
pub mod Counts
pub mod Tree
pub mod Equal
pub mod Same
pub mod Compared
pub mod Equality
pub mod Arrays
pub mod Format
pub mod Text
pub mod Pushed
pub mod Formatted
pub mod Printed
pub mod Readable
pub mod Construct
pub mod Moved
pub mod Gathered
pub mod Built
pub mod Constructed
pub mod Cloned
