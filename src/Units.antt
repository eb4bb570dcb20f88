-- ===== src/Units.antt =====
-- The unit tests inside the crate's files: what each test computes, and that it is what its
-- assertions expect. `none` is the panic of an `unwrap`.
pub mod Strings
pub mod Policies
pub mod Tags
pub mod Primitives
pub mod Ciphers
pub mod Targets
pub mod Answers
