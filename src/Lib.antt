-- ===== src/Lib.antt =====
-- Real Layer: a two-hop relay network. A client reads IP packets from a tunnel device, sends those for
-- public addresses through an encrypted channel to an entry relay and on to an exit relay, which puts
-- them on the network under an address of its own.
--
-- The parts and their files, from the wire inwards:
-- * `Network.Session` models network/src/session.rs. `SessionInitiator::new`, `build_init` and
--   `complete` are `new_initiator`, `build_init`, `complete`; `SessionResponder::new` and
--   `accept_init` are `new_responder` and `accept_init`; `SecureSession` has `encrypt`, `decrypt`
--   and `close`. `validate_init`, `validate_response`, `transcript`, `derive_session` and
--   `nonce_from_counter` keep their names.
-- * `Network.Channel` models network/src/channel.rs: `EncryptedChannel::open` (`open_channel`), `send`,
--   `receive`, `take_pending`, `close` (`close_channel`) and `mark_remote_closed`. It owns a session.
-- * `Network.DataPlane` models network/src/data_plane.rs: payloads of bounded size over a channel.
-- * `Network.Packet` models network/src/packet.rs and network/src/mtu.rs, `Network.Routing`
--   network/src/routing.rs, and `Network.Pipeline` network/src/pipeline.rs, which puts these three
--   before the data plane.
-- * `Network.Nat` models network/src/nat.rs, the exit's table of address translations.
-- * `Network.ReturnPath` models network/src/return_path.rs, the table of packets that wait for an answer.
-- * `Relay.Forwarding` models relay/src/forwarding.rs, the context of a two-hop circuit at a relay, and
--   `Relay.ForwardingManager` relay/src/forwarding_manager.rs, the table of these contexts.
-- * `Network.Config` models the limits of a relay and the words of network/src/config.rs.
-- * `Network.Dns` models network/src/dns.rs: `DnsQuery::parse` is `parse`, with its loop `skip_labels`,
--   and `UdpDnsResolver` has `new_resolver` and `resolve_packet`.
-- * `Client.DnsPackets` models the functions of client/src/engine.rs on bytes: `dns_query`,
--   `extract_dns_payload`, `build_dns_response_packet` and `ipv4_checksum`. `Client.Forwarding` models
--   the two branches of its `run_client` between the tunnel and the relays: `on_packet` for a packet
--   from the tunnel, `on_message` for a message from a relay.
-- * `Relay.Core` models relay/src/core.rs, the lifecycle and the limits of a relay; `Relay.State` models
--   relay/src/state.rs, health.rs and heartbeat.rs, `Relay.Sessions` relay/src/session_manager.rs,
--   `Relay.Connections` relay/src/connection.rs, `Relay.Registry` relay/src/registry.rs,
--   `Relay.Candidates` relay/src/metadata.rs and candidate.rs, and `Relay.RouteSelection`
--   relay/src/routing.rs, which chooses the hops of a route among ranked candidates.
-- * `Relay.ExitNetwork` models relay/src/exit_network.rs, the destinations that an exit allows and its TCP
--   connection, and `Relay.ExitHandler` relay/src/exit_handler.rs, which checks a packet against the
--   forwarding context of its circuit, takes its identifier once and queues the response.
-- * `Network.Address` has the standard library's addresses and their predicates, `Base` what all parts
--   share, and `Tests` the theorems at concrete inputs.
--
-- How the code is modelled. A method with `&mut self` is a function from the state to the state after
-- the call and the result; `?` is the bind of `Result`. An index out of bounds is the result `panic`.
-- Random values and readings of the clock are arguments. Machine integers are numbers, and where the
-- code checks or wraps them, this is written out: `checked_add` is a comparison with 2 ^ 64, `as u32`
-- is a remainder. A `HashMap` is a list of entries with the map's operations. A long function is cut
-- into stages, each named and mapped on its own.
--
-- Bounds. Every loop but two is structural. `allocate_port` has one round for each of the 25536 ports of
-- its range, as in the code, and that many rounds meet every port. `skip_labels` has as much fuel as
-- the packet has bytes, and each round moves on by one byte at least, so that it never runs out.
-- `fold_carries` has three rounds: a sum of 32 bits needs no more until its carry is 0.
--
-- Parameters. libp2p's identities, x25519, HKDF, ChaCha20-Poly1305 and the serialization of routes are
-- the record `Primitives`, and `Laws` what they promise: what is encoded, signed or sealed is decoded,
-- verified and opened again, and a key exchange gives both sides the same secret. serde_json on frames
-- is `Codec` with `CodecLaws`. The addresses of libp2p are `Addresses`, a parser and a printer; a DNS
-- exchange and a TCP stream (`Tcp`) are functions. No secrecy of these libraries is assumed: a theorem
-- about messages of an attacker says which checks they passed.
--
-- Not modelled: the relay's UDP adapter and its event loop, the client's handshake and program, transport,
-- the rest of the configuration, tunnel devices and the routing tables of the operating system. Most of
-- these are I/O over libraries that are not in the repository.
pub mod Base
pub mod Client
pub mod Network
pub mod Relay
pub mod Tests
