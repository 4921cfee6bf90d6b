-- ===== src/AuthHeader.antt =====
-- internal/authheader/parse.go: the identifiers of a client in a request's headers and query.
pub mod Parse
pub mod Quoted
