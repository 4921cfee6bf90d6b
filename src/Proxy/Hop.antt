-- ===== src/Proxy/Hop.antt =====
-- internal/proxy/proxy.go and internal/proxy/proxy_perf.go: what is served from the caches, what is sent to a
-- backend, and what its answer changes. The network is a parameter.
pub mod State
pub mod Send
pub mod Cached
pub mod Modify
pub mod Coalesced
pub mod Performance
pub mod Logout
pub mod Slots
pub mod Shared
