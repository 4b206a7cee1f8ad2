-- ===== src/Tests.antt =====
-- The theorems at concrete inputs, over small libraries that satisfy the laws.
pub mod Instances
mod Queries
mod Tunnels
mod Relays
mod Exits
mod Sessions
mod Channels
mod Packets
mod Translations
mod Returns
mod Circuits
mod Flows
