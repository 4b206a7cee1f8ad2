-- ===== src/Client/Forwarding.antt =====
-- client/src/engine.rs: the event loop of `run_client`, as far as it forwards packets between the tunnel and
-- the exit relay. `Engine` has the loop's variables that these branches use. A turn on a packet from
-- the tunnel gives the request to send; `error tt` is a turn that sends nothing, and `panic` the failed
-- `expect`. A turn on a forwarding message gives the packet for the tunnel, if there is one. The text
-- that serde_json makes of the message, which is taken to succeed, and the sender to the tunnel, which
-- is taken to be there, are left out.
pub mod Descriptions
pub mod Refusals
pub mod Returns
use real_layer.Base.Bytes.{Bytes}
use real_layer.Base.{
  ℕ, String, Option, none, some, [], ◌∷◌, Bool, true, false, Result, ok, err, Fault, error, panic,
  ◌>>=◌, ◌>>◌, reject, ok_or, map_err, index, length, ltb, ◌==◌, string_eq, if◌then◌else◌,
}
use real_layer.Network.Address.{SocketAddr, IpAddr, v4, v6}
use real_layer.Network.Session.Types.{SessionId, RouteBinding, two_hop}
use real_layer.Network.Session.Primitives.{Primitives}
use real_layer.Network.Channel.Types.{EncryptedChannel, Codec}
use real_layer.Network.DataPlane.{
  DataPlane, DataPlaneEnvelope, DataPlaneError, DataPlaneMessage, data_plane_kind,
  default_maximum_payload_size, open_plane,
}
use real_layer.Network.DataPlane as Plane
use real_layer.Relay.Forwarding.{
  ForwardingMessage, ForwardedPacket, ForwardedProtocol, dns, ip, udp, forwarding_kind,
}
use real_layer.Client.DnsPackets.{extract_dns_payload, build_dns_response_packet, Octets}

pub record Engine (P : Type 0) : Type 0 where
  pub active_channel : Option (EncryptedChannel P)
  pub active_route : Option (RouteBinding P)
  pub exit_peer : Option P
  pub current_session_id : Option SessionId

-- The address of the tunnel, 10.8.0.1.
abbrev pub tunnel_ip : IpAddr
tunnel_ip = v4 10 8 0 1

-- The metadata of a packet: one flow for each session, and always the sequence number 1.
unfoldable pub forwarded_packet :
    SessionId
    → ForwardedProtocol
    → (source_port : ℕ) → (destination : SocketAddr) → Bytes
    → ForwardedPacket
forwarded_packet session_id protocol source_port destination payload = record {
  protocol = protocol;
  source = some (record { ip = tunnel_ip; port = source_port });
  destination = destination;
  flow_id = session_id;
  session_id = session_id;
  route_id = session_id;
  sequence = 1;
  payload = payload;
}

-- The part of `fwd_packet` that addresses a DNS response.
unfoldable pub response_port : Option SocketAddr → ℕ
response_port none = 12345
response_port (some source) = source.port

unfoldable pub server_octets : IpAddr → Octets
server_octets (v4 a b c d) = (a, b, c, d)
server_octets (v6 octets) = (8, 8, 8, 8)

-- What goes to the tunnel for a payload that came back.
unfoldable pub tunnel_packet : Option ForwardedPacket → (payload : Bytes) → Bytes
unfolding response_port server_octets
tunnel_packet none payload = payload
tunnel_packet (some p) payload = elim p.protocol [
  | dns ↦
      build_dns_response_packet payload (server_octets p.destination.ip) (10, 8, 0, 1) 53
        (response_port p.source)
  | protocol ↦ payload
]

-- A packet that is no DNS query, if it has an IPv4 header's length.
unfoldable pub describe_ip : SessionId → Bytes → Result (Fault (Unit {0})) ForwardedPacket
unfolding forwarded_packet
describe_ip session_id packet = do
  reject (ltb (length packet) 20) (error tt)
  a ← index packet 16
  b ← index packet 17
  c ← index packet 18
  d ← index packet 19
  ok (forwarded_packet session_id ip 0 (record { ip = v4 a b c d; port = 0 }) packet)

-- What the loop makes of a packet by what `extract_dns_payload` gives for it.
unfoldable pub describe_by :
    SessionId
    → Bytes
    → Result (Fault (Unit {0})) (SocketAddr × ℕ × Bytes)
    → Result (Fault (Unit {0})) ForwardedPacket
unfolding describe_ip forwarded_packet
describe_by session_id packet (ok (dns_dest, src_port, dns_payload)) =
    ok (forwarded_packet session_id dns src_port dns_dest dns_payload)
describe_by session_id packet (err panic) = err panic
describe_by session_id packet (err (error e)) = describe_ip session_id packet

unfoldable pub describe : SessionId → Bytes → Result (Fault (Unit {0})) ForwardedPacket
unfolding describe_by
describe session_id packet = describe_by session_id packet (extract_dns_payload packet)

module _ (lib : Primitives) (json : Codec) where
  open lib use {PeerId, to_string}

  unfoldable pub forwarding_message :
      (peer_id : PeerId)
      → SessionId
      → RouteBinding PeerId
      → (frame : Bytes) → ForwardedPacket
      → ForwardingMessage PeerId
  forwarding_message peer_id session_id route frame packet = record {
    kind = forwarding_kind;
    forwarding_id = session_id;
    client_session_id = session_id;
    client_peer = to_string peer_id;
    route = route;
    data_envelope = record { kind = data_plane_kind; session_id = session_id; frame = frame };
    packet = some packet;
  }

  -- `DataPlane::open` and `send`, with the channel afterwards.
  unfoldable pub seal_payload :
      EncryptedChannel PeerId → Bytes → EncryptedChannel PeerId × Result DataPlaneError Bytes
  seal_payload channel payload = elim (open_plane lib json channel default_maximum_payload_size) [
    | err e ↦ (channel, err e)
    | ok plane ↦ let (plane', frame) = Plane.send lib json plane payload in (plane'.channel, frame)
  ]

  abbrev pub Turn : Type 0
  Turn = Engine PeerId × Result (Fault (Unit {0})) (PeerId × ForwardingMessage PeerId)

  -- The payload is sealed, and the message goes to the exit relay.
  unfoldable pub forward :
      (peer_id : PeerId)
      → Engine PeerId
      → EncryptedChannel PeerId
      → RouteBinding PeerId
      → (exit : PeerId) → SessionId
      → ForwardedPacket
      → Turn
  unfolding seal_payload forwarding_message
  forward peer_id engine channel route exit session_id packet =
      let (channel', frame) = seal_payload channel packet.payload in
      (
        record engine { active_channel = some channel' },
        (do
          bytes ← map_err (λ e. error tt) frame
          ok (exit, forwarding_message peer_id session_id route bytes packet)),
      )

  -- With a channel, a route and an exit.
  unfoldable pub on_ready_packet :
      (peer_id : PeerId)
      → Engine PeerId
      → EncryptedChannel PeerId
      → RouteBinding PeerId
      → (exit : PeerId) → Bytes
      → Turn
  unfolding describe forward
  on_ready_packet peer_id engine channel route exit packet = elim engine.current_session_id [
    | none ↦ (engine, err panic)
    | some session_id ↦ elim (describe session_id packet) [
      | err e ↦ (engine, err e)
      | ok p ↦ forward peer_id engine channel route exit session_id p
    ]
  ]

  -- A packet from the tunnel.
  unfoldable pub on_packet : (peer_id : PeerId) → Engine PeerId → Bytes → Turn
  unfolding on_ready_packet
  on_packet peer_id engine packet = elim engine.active_channel [
    | none ↦ (engine, err (error tt))
    | some channel ↦ elim engine.active_route [
      | none ↦ (engine, err (error tt))
      | some route ↦ elim engine.exit_peer [
        | none ↦ (engine, err (error tt))
        | some exit ↦ on_ready_packet peer_id engine channel route exit packet
      ]
    ]
  ]

  -- What `receive` gives, made a packet for the tunnel.
  unfoldable pub accept_payload :
      Engine PeerId
      → Option ForwardedPacket
      → DataPlane PeerId × Result DataPlaneError DataPlaneMessage
      → Engine PeerId × Option Bytes
  accept_payload engine packet (plane, err e) =
      (record engine { active_channel = some plane.channel }, none)
  accept_payload engine packet (plane, ok received) = (
    record engine { active_channel = some plane.channel },
    some (tunnel_packet packet received.payload),
  )

  unfoldable pub on_open_channel :
      Engine PeerId
      → EncryptedChannel PeerId
      → ForwardingMessage PeerId
      → Engine PeerId × Option Bytes
  unfolding accept_payload
  on_open_channel engine channel message =
      elim (open_plane lib json channel default_maximum_payload_size) [
        | err e ↦ (engine, none)
        | ok plane ↦
            accept_payload engine message.packet
              (Plane.receive lib json plane message.data_envelope)
      ]

  -- A forwarding message from the relay.
  unfoldable pub on_message :
      Engine PeerId → ForwardingMessage PeerId → Engine PeerId × Option Bytes
  unfolding on_open_channel
  on_message engine message =
      if message.kind == forwarding_kind
      then elim engine.active_channel [
        | none ↦ (engine, none)
        | some channel ↦ on_open_channel engine channel message
      ]
      else (engine, none)
