-- ===== src/Network/Channel.antt =====
-- network/src/channel.rs: framed messages over an established session.
-- `Types` has the data and serde_json as a parameter, `Sending` has `open`, `send`, `take_pending`,
-- `close` and `mark_remote_closed`, `Receiving` has `receive`; the other modules prove what two
-- channels guarantee to each other.
pub mod Types
pub mod Sending
pub mod Receiving
pub mod Sent
pub mod Frames
pub mod Delivery
pub mod Order
pub mod Replay
