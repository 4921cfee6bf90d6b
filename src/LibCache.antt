-- ===== src/LibCache.antt =====
-- internal/libcache/cache.go: the cache of library JSON, keyed by backend, token and URL.
pub mod Cache
pub mod Paths
pub mod Invariant
pub mod Lookup
pub mod Tokens
