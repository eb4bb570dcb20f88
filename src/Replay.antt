-- ===== src/Replay.antt =====
-- src/replay.rs: the cache of (key-id, nonce) pairs. A call holds the mutex from its first line to
-- its last, so the calls of several threads are calls in some order.
pub mod Defs
pub mod Step
pub mod Window
pub mod Refines
pub mod Size
pub use Defs.{ReplayCache, State, InMemoryReplayCache}
unfoldable pub use Defs.{new, len, is_empty, check_and_remember, in_memory, prune, remember}
