-- ===== src/Proxy/Origin.antt =====
-- internal/proxy/origin.go: a proxy that keeps its clients on its own origin, and shows its own server id.
-- What packages net, net/url and encoding/json do is a parameter.
pub mod Urls
pub mod Forward
pub mod Playlist
pub mod SystemInfo
pub mod Response
pub mod Texts
pub mod Info
pub mod Moved
pub mod Lines
pub mod Frame
