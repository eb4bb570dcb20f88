-- ===== src/Go/Same.antt =====
-- The Go port and the crate do the same.
pub mod Strings
pub mod Signatures
pub mod Stores
pub mod Grants
pub mod Authentic
pub mod Requests
pub mod Responses
