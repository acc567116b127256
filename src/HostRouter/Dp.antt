-- ===== src/HostRouter/Dp.antt =====
-- core/host_router.rs, `dp_host_matches`: the table over prefixes of the pattern and of the host,
-- kept row after row in one flat buffer.
mod Table
mod Spec
mod Laws
pub mod InRange
unfoldable pub use Table.{dp_host_matches}
pub use Laws.{dp_host_matches-Matches}
