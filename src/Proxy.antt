-- ===== src/Proxy.antt =====
-- internal/proxy: what a request does to the bindings, the login over several backends, the cap on library
-- hops and what they serve from the library cache.
pub mod Paths
pub mod Serve
pub mod Sticky
pub mod Login
pub mod Candidates
pub mod LibSem
pub mod Library
pub mod Isolation
pub mod Warm
pub mod Warming
pub mod Headers
pub mod Values
pub mod Origin
pub mod Hop
