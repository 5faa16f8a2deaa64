-- ===== src/HostStorage.antt =====
-- The registry of the host's allocations: src/host_storage.cpp. Registry holds the operations and
-- Accounts what each does to the bytes that an owner has in use, Removed what a removal takes out,
-- and Aliasing and Fresh the addresses.
pub mod Registry
pub mod Accounts
pub mod Removed
pub mod Aliasing
pub mod Fresh
