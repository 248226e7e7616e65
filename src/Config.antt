-- ===== src/Config.antt =====
-- The configuration package: config/config.go and config/points.go.
pub mod Types
pub mod Text
pub mod Points
pub mod Load
pub mod Settings
