-- ===== src/Application.antt =====
-- The application of a primitive to values: src/application.cpp.
pub mod Errors
pub mod Elements
pub mod Context
pub mod Structural
pub mod Lifted
pub mod Apply
pub mod Pointwise
pub mod Accounting
pub mod Refunds
