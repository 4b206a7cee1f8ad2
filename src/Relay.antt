-- ===== src/Relay.antt =====
-- The crate relay/.
pub mod Candidates
pub mod Connections
pub mod Core
pub mod ExitHandler
pub mod ExitNetwork
pub mod Forwarding
pub mod ForwardingManager
pub mod Registry
pub mod RouteSelection
pub mod Sessions
pub mod State
