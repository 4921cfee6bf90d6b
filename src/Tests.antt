-- ===== src/Tests.antt =====
-- The concrete inputs at which the theorems are applied.
mod Data
mod Routing
mod Storing
mod Caching
mod Clients
mod Hops
mod Configs
mod Origins
mod Sharing
mod Warm
