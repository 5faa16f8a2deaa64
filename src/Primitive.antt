-- ===== src/Primitive.antt =====
-- The primitives: include/bennu/primitive_id.hpp, include/bennu/primitive.hpp and
-- src/primitive.cpp. Types holds the data, Table the production table and the lookups,
-- Implementation the check of a signature against its kernel.
pub mod Types
pub mod Table
pub mod Implementation
pub mod Select
pub mod Ambiguity
pub mod Validate
pub mod Integers
pub mod Kernel
