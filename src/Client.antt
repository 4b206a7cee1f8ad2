-- ===== src/Client.antt =====
-- client/src/engine.rs: the client.
pub mod DnsPackets
pub mod Forwarding
