-- ===== src/Status.antt =====
-- internal/status/status.go: the JSON interface that shows the state and switches backends. Routes,
-- headers, the JSON encoding, the metrics and the pages of the UI are not modelled: an answer is its
-- status and the value that is encoded. The server's configuration, store and monitor are those of its
-- router, as cmd/hapudding/main.go builds it; none of them is nil.
pub mod Backends
pub mod Switch
pub mod Groups
pub mod Users
pub mod Listing
pub mod Reasons
mod Caches
