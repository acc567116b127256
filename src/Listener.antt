-- ===== src/Listener.antt =====
-- network/listeners.rs: what is done with a client's connection.
pub mod Framing
pub mod Strip
pub mod Socket
pub mod Read
pub mod Forward
pub mod Process
