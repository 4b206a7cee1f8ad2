-- ===== src/Network.antt =====
-- The `network` crate (network/src).
pub mod Address
pub mod Packet
pub mod Routing
pub mod Session
pub mod Channel
pub mod Config
pub mod DataPlane
pub mod Pipeline
pub mod Nat
pub mod ReturnPath
pub mod Dns
