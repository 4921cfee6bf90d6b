-- ===== src/Store.antt =====
-- internal/store/store.go: the affinity store, a database of four tables behind SQL statements.
pub mod Table
pub mod Types
pub mod Tokens
pub mod Bindings
pub mod Pins
pub mod Reports
pub mod Laws
pub mod RoundTrip
pub mod Frame
pub mod Unpin
