-- ===== src/Network/Session.antt =====
-- network/src/session.rs: authenticated sessions between two peers.
-- `Types` has the data, `Primitives` the cryptographic and encoding libraries as parameters,
-- `Validation` the checks on messages, `Handshake` the initiator and the responder, `Cipher` the
-- methods of an established session. The other modules prove what these guarantee.
pub mod Types
pub mod Primitives
pub mod Validation
pub mod Handshake
pub mod Cipher
pub mod Replay
pub mod Counters
pub mod Messages
pub mod Agreement
pub mod Authentication
pub mod Duplicates
pub mod Answers
