-- ===== src/ImgCache.antt =====
-- internal/imgcache: the cache of images, in memory and on disk.
pub mod Types
pub mod Memory
pub mod Disk
pub mod Cache
pub mod Frame
pub mod Invariant
pub mod Load
pub mod Bounds
pub mod Request
pub mod Fresh
