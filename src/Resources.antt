-- ===== src/Resources.antt =====
-- The evaluation resources: src/resources.cpp and include/bennu/resources.hpp.
pub mod Types
pub mod World
pub mod Admission
pub mod Limits
pub mod Transaction
pub mod Sound
pub mod Work
pub mod Buffers
pub mod Charges
pub mod Reservations
pub mod Vector
pub mod Validate
pub mod Release
pub mod Releases
pub mod VectorReleases
pub mod Unaliasing
pub mod Allocated
pub mod Tracked
pub mod Refund
pub mod Fresh
pub mod Context
