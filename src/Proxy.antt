-- ===== src/Proxy.antt =====
-- The package proxy: UDP datagrams framed on the tunnel.
pub mod Frame
pub mod Header
pub mod Sessions
pub mod Manager
pub mod Serve
mod Tests
