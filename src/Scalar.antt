-- ===== src/Scalar.antt =====
-- Scalar values: include/bennu/value.hpp, and the scalar parts of src/value.cpp and
-- src/primitive.cpp. Types holds the data, Binary64 the code on the bit patterns of doubles,
-- Conversion the conversion of an integer to a double, and the other children the proofs.
pub mod Types
pub mod Binary64
pub mod Fields
pub mod Order
pub mod Conversion
