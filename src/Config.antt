-- ===== src/Config.antt =====
-- src/config: the configuration files.
pub mod Services
pub mod Global
