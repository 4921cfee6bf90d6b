-- ===== src/Lru.antt =====
-- The list and the index that the caches of internal/libcache/cache.go, internal/imgcache/cache.go
-- and internal/imgcache/disk.go keep: a container/list of items, most recently used first, and a map
-- from a key to the element of the list that holds its item.
pub mod Elements
pub mod Invariant
pub mod Change
pub mod Fit
pub mod Refinement
pub mod Store
pub mod Defs
