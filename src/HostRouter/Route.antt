-- ===== src/HostRouter/Route.antt =====
-- The table as a whole against the meaning of its patterns.
pub mod Held
pub mod Finders
pub mod Parts
pub mod Adds
pub mod Patterns
pub mod Plain
pub mod Grows
pub mod Extends
pub mod Covers
pub mod Wildcards
pub mod Stored
pub mod Complete
pub mod Sound
