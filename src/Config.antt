-- ===== src/Config.antt =====
-- internal/config/config.go: the configuration, its defaults and its validation.
mod Types
mod Access
pub mod Graylist
pub mod Guid
pub mod Defaults
pub mod Env
pub mod Validate
pub mod Valid
unfoldable pub use Types.*
unfoldable pub use Access.*
