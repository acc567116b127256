-- ===== src/HostRouter.antt =====
-- core/host_router.rs: the routing table for one port, from host patterns to configuration indices.
pub mod Labels
pub mod Literal
pub mod Dp
pub mod Internal
pub mod Trie
pub mod Table
pub mod Route
unfoldable pub use Table.{new, add_pattern, matches}
pub use Table.{HostRouter}
