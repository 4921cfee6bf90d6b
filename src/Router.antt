-- ===== src/Router.antt =====
-- internal/router: which backend a request goes to.
pub mod Types
pub mod Flags
pub mod Pick
pub mod Decide
pub mod Placement
pub mod Safety
pub mod Balance
pub mod Affinity
pub mod Frame
