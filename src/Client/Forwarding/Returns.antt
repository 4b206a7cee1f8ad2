-- ===== src/Client/Forwarding/Returns.antt =====
-- A DNS query from the tunnel and the packet that its response becomes.
use real_layer.Base.Bytes.{Bytes}
use real_layer.Base.{
  ℕ, Option, Result, ◌≤◌, ◌≡◌, ◌≢◌, refl, ◌∙◌, some, ok, err, panic, arith, Option-cases,
  Result-cases, inl, inr, string_eq,
}
use real_layer.Network.Address.{v4}
use real_layer.Network.Session.Types.{SessionId}
use real_layer.Network.Session.Primitives.{Primitives, Laws}
use real_layer.Network.Channel.Types.{Codec, CodecLaws, EncryptedChannel, established}
use real_layer.Network.Channel.Delivery.{Linked}
use real_layer.Network.DataPlane.Delivery.{receive-send_payload}
use real_layer.Network.DataPlane.{
  DataPlane, DataPlaneMessage, DataPlaneError, open_plane, data_plane_kind, payload_data,
  default_maximum_payload_size,
}
use real_layer.Network.DataPlane as Plane
use real_layer.Relay.Forwarding.{ForwardingMessage, ForwardedPacket, forwarding_kind, dns}
use real_layer.Client.DnsPackets.{extract_dns_payload, build_dns_response_packet, Octets}
use real_layer.Client.Forwarding.Descriptions.{describe-dns, describe-ne-panic}
use real_layer.Client.Forwarding.Refusals.{on_packet-Sent}
use real_layer.Client.Forwarding.{
  Engine, forwarded_packet, forwarding_message, tunnel_packet, response_port, server_octets,
  describe, seal_payload, forward, on_ready_packet, on_packet, accept_payload, on_open_channel,
  on_message,
}

module _ (lib : Primitives) (json : Codec) where
  open lib use {PeerId}

  accept_payload-ok :
      (engine : Engine PeerId) (p : Option ForwardedPacket) (received : DataPlaneMessage)
      (r : DataPlane PeerId × Result DataPlaneError DataPlaneMessage)
      → r.1 ≡ ok received
      → (accept_payload lib json engine p r).1 ≡ some (tunnel_packet p received.payload)
  unfolding accept_payload
  accept_payload-ok engine p received (plane, ok x) h = ground arith
  accept_payload-ok engine p received (plane, err e) h = absurd (ground arith)

  abbrev plane_over : EncryptedChannel PeerId → DataPlane PeerId
  plane_over channel = record {
    channel = channel;
    maximum_payload_size = default_maximum_payload_size;
  }

  open_plane-ok :
      (channel : EncryptedChannel PeerId)
      → channel.state ≡ established
      → open_plane lib json channel default_maximum_payload_size ≡ ok (plane_over channel)
  unfolding open_plane
  open_plane-ok channel live = ground (arith, live)

  -- A message that the open channel takes becomes a packet for the tunnel.
  on_message-receive :
      (engine : Engine PeerId) (channel : EncryptedChannel PeerId) (m : ForwardingMessage PeerId)
      (received : DataPlaneMessage)
      → engine.active_channel ≡ some channel
      → channel.state ≡ established
      → m.kind ≡ forwarding_kind
      → (Plane.receive lib json (plane_over channel) m.data_envelope).1 ≡ ok received
      → (on_message lib json engine m).1 ≡ some (tunnel_packet m.packet received.payload)
  unfolding on_message on_open_channel
  on_message-receive engine channel m received there live kind got =
      rw (kind, there, on_open_channel, open_plane-ok channel live)
        (accept_payload-ok engine m.packet received
          (Plane.receive lib json (plane_over channel) m.data_envelope) got)

  -- A DNS response that the exit sends over a channel linked to the client's, with the packet of a
  -- query that the client sent, reaches the tunnel: as a packet that holds the response, from the
  -- server that the query went to, port 53, to the port that the query came from. The libraries keep
  -- their laws, and the exit's limit on payloads is no greater than the client's.
  pub on_message-on_packet :
      Laws lib
      → CodecLaws json
      → (peer_id : PeerId) (engine after : Engine PeerId) (packet : Bytes) (to : PeerId)
        (m answer : ForwardingMessage PeerId) (o : Octets) (port : ℕ) (q : Bytes)
        (engine' : Engine PeerId) (channel : EncryptedChannel PeerId)
        (exit exit' : DataPlane PeerId) (response frame : Bytes)
      → extract_dns_payload packet ≡ ok (record { ip = v4 o.0 o.1 o.2 o.3; port = 53 }, port, q)
      → on_packet lib json peer_id engine packet ≡ (after, ok (to, m))
      → engine'.active_channel ≡ some channel
      → Linked lib json exit.channel channel
      → exit.maximum_payload_size ≤ default_maximum_payload_size
      → Plane.send lib json exit response ≡ (exit', ok frame)
      → answer.kind ≡ forwarding_kind
      → answer.packet ≡ m.packet
      → answer.data_envelope
        ≡ record { kind = data_plane_kind; session_id = channel.session.session_id; frame = frame }
      → (on_message lib json engine' answer).1
        ≡ some (build_dns_response_packet response o (10, 8, 0, 1) 53 port)
  unfolding tunnel_packet response_port server_octets forwarded_packet forwarding_message
  on_message-on_packet laws codec peer_id engine after packet to m answer o port q engine' channel
        exit exit' response frame taken h there linked sizes sent kind same envelope =
      let s = on_packet-Sent lib json peer_id engine after packet to m h in
      let inner : s.inner
          ≡ forwarded_packet s.session_id dns port (record { ip = v4 o.0 o.1 o.2 o.3; port = 53 })
              q =
        ground (arith, s.described, describe-dns s.session_id packet _ port q taken) in
      let got =
        receive-send_payload lib json laws codec exit exit' (plane_over channel) response frame
          linked sizes sent in
      on_message-receive engine' channel answer
        (record {
          session_id = channel.session.session_id;
          sequence_number = exit.channel.send_sequence;
          message_type = payload_data;
          payload = response;
        })
        there linked.live kind (rw envelope got)
      ∙ rw (same, s.message, inner) refl

  -- With a session there is no panic, whatever the packet.
  on_packet-ne-panic :
      (peer_id : PeerId) (engine : Engine PeerId) (packet : Bytes) (id : SessionId)
      → engine.current_session_id ≡ some id
      → (on_packet lib json peer_id engine packet).1 ≢ err panic
  unfolding on_packet on_ready_packet forward
  on_packet-ne-panic peer_id engine packet id e h = elim (Option-cases engine.active_channel) [
    | inl e₁ ↦ ground arith
    | inr (channel, e₁) ↦ elim (Option-cases engine.active_route) [
      | inl e₂ ↦ ground arith
      | inr (route, e₂) ↦ elim (Option-cases engine.exit_peer) [
        | inl e₃ ↦ ground arith
        | inr (exit, e₃) ↦ elim (Result-cases (describe id packet)) [
          | inr (x, d) ↦ ground (arith, describe-ne-panic id packet)
          | inl (p, d) ↦ elim (Result-cases (seal_payload lib json channel p.payload).1) [
            | inr (x, sealed) ↦ ground arith
            | inl (frame, sealed) ↦ ground arith
          ]
        ]
      ]
    ]
  ]
