-- ===== src/Client/Forwarding/Refusals.antt =====
-- Which of the client's messages the context of relay/src/forwarding.rs takes.
use real_layer.Base.Bytes.{Bytes}
use real_layer.Base.{
  ℕ, ◌≤◌, ◌≡◌, ◌≢◌, refl, sym, ap, ◌∙◌, some, ok, err, error, arith, length, Option-cases,
  Result-cases, inl, inr,
}
use real_layer.Network.Address.{SocketAddr}
use real_layer.Network.Session.Types.{SessionId, RouteBinding}
use real_layer.Network.Session.Primitives.{Primitives, Laws}
use real_layer.Network.Channel.Types.{EncryptedChannel, Codec}
use real_layer.Network.DataPlane.{open_plane, default_maximum_payload_size}
use real_layer.Network.DataPlane as Plane
use real_layer.Relay.Forwarding.{
  ForwardingContext, ForwardingMessage, ForwardedPacket, sequence_violation, validate_message,
  accept_sequence, is_violation, dns,
}
use real_layer.Relay.Forwarding.Messages.{validate_message_iff}
use real_layer.Client.DnsPackets.{extract_dns_payload}
use real_layer.Client.DnsPackets.Extraction.{extract_dns_payload-port}
use real_layer.Client.Forwarding.Descriptions.{describe-dns, describe-port, describe-OfSession}
use real_layer.Client.Forwarding.{
  Engine, forwarded_packet, forwarding_message, seal_payload, forward, describe, on_ready_packet,
  on_packet,
}

module _ (lib : Primitives) (json : Codec) where
  open lib use {PeerId, to_string}

  -- What a turn that sends a message has used.
  pub record Sent (peer_id : PeerId) (engine : Engine PeerId) (packet : Bytes)
      (m : ForwardingMessage PeerId) : Type 0 where
    pub channel : EncryptedChannel PeerId
    pub route : RouteBinding PeerId
    pub session_id : SessionId
    pub frame : Bytes
    pub inner : ForwardedPacket
    pub at_route : engine.active_route ≡ some route
    pub at_session : engine.current_session_id ≡ some session_id
    pub described : describe session_id packet ≡ ok inner
    pub sealed : (seal_payload lib json channel inner.payload).1 ≡ ok frame
    pub message : m ≡ forwarding_message lib json peer_id session_id route frame inner

  on_ready_packet-Sent :
      (peer_id : PeerId) (engine after : Engine PeerId) (packet : Bytes) (to : PeerId)
      (m : ForwardingMessage PeerId) (channel : EncryptedChannel PeerId)
      (route : RouteBinding PeerId) (exit : PeerId)
      → engine.active_route ≡ some route
      → on_ready_packet lib json peer_id engine channel route exit packet ≡ (after, ok (to, m))
      → Sent peer_id engine packet m
  unfolding on_ready_packet forward
  on_ready_packet-Sent peer_id engine after packet to m channel route exit at_route h =
      elim (Option-cases engine.current_session_id) [
        | inl e ↦ absurd (ground arith)
        | inr (id, e) ↦ elim (Result-cases (describe id packet)) [
          | inr (x, d) ↦ absurd (ground arith)
          | inl (p, d) ↦ elim (Result-cases (seal_payload lib json channel p.payload).1) [
            | inr (x, sealed) ↦ absurd (ground arith)
            | inl (frame, sealed) ↦ record {
              channel = channel;
              route = route;
              session_id = id;
              frame = frame;
              inner = p;
              at_route = at_route;
              at_session = e;
              described = d;
              sealed = sealed;
              message = ground arith;
            }
          ]
        ]
      ]

  pub on_packet-Sent :
      (peer_id : PeerId) (engine after : Engine PeerId) (packet : Bytes) (to : PeerId)
      (m : ForwardingMessage PeerId)
      → on_packet lib json peer_id engine packet ≡ (after, ok (to, m))
      → Sent peer_id engine packet m
  unfolding on_packet on_ready_packet forward
  on_packet-Sent peer_id engine after packet to m h = elim (Option-cases engine.active_channel) [
    | inl e₁ ↦ absurd (ground arith)
    | inr (channel, e₁) ↦ elim (Option-cases engine.active_route) [
      | inl e₂ ↦ absurd (ground arith)
      | inr (route, e₂) ↦ elim (Option-cases engine.exit_peer) [
        | inl e₃ ↦ absurd (ground arith)
        | inr (exit, e₃) ↦
            on_ready_packet-Sent peer_id engine after packet to m channel route exit e₂
              (ground arith)
      ]
    ]
  ]

  Sent-inner :
      (peer_id : PeerId) (engine : Engine PeerId) (packet : Bytes) (m : ForwardingMessage PeerId)
      (s : Sent peer_id engine packet m) (p : ForwardedPacket)
      → m.packet ≡ some p
      → s.inner ≡ p
  unfolding forwarding_message
  Sent-inner peer_id engine packet m s p h = ground (arith, s.message)

  -- What the client sends for a packet that is no DNS query is accepted by no context of a circuit:
  -- the destination has the port 0.
  pub validate_message-on_packet_ip :
      (peer_id : PeerId) (engine after : Engine PeerId) (packet : Bytes) (to : PeerId)
      (m : ForwardingMessage PeerId) (c : ForwardingContext PeerId)
      → extract_dns_payload packet ≡ err (error tt)
      → on_packet lib json peer_id engine packet ≡ (after, ok (to, m))
      → validate_message lib m c ≢ ok tt
  validate_message-on_packet_ip peer_id engine after packet to m c other h v =
      let s = on_packet-Sent peer_id engine after packet to m h in
      let (p, there, b) = ((validate_message_iff lib m c).0 v).inner in
      omega (
        arith,
        describe-port s.session_id packet s.inner other s.described,
        b.addressed,
        ap (λ (q : ForwardedPacket). q.destination.port)
            (Sent-inner peer_id engine packet m s p there),
      )

  -- Of two messages that the client sends, a context that is given the number of the first refuses
  -- the number of the second, since every message has the number 1.
  pub accept_sequence-on_packet :
      (peer_id : PeerId) (engine after : Engine PeerId) (packet : Bytes) (to : PeerId)
      (m : ForwardingMessage PeerId) (p : ForwardedPacket) (engine' after' : Engine PeerId)
      (packet' : Bytes) (to' : PeerId) (m' : ForwardingMessage PeerId) (p' : ForwardedPacket)
      (c : ForwardingContext PeerId)
      → on_packet lib json peer_id engine packet ≡ (after, ok (to, m))
      → m.packet ≡ some p
      → on_packet lib json peer_id engine' packet' ≡ (after', ok (to', m'))
      → m'.packet ≡ some p'
      → (accept_sequence lib p'.sequence (accept_sequence lib p.sequence c).0).1
        ≡ err sequence_violation
  unfolding accept_sequence is_violation
  accept_sequence-on_packet peer_id engine after packet to m p engine' after' packet' to' m' p' c h
        there h' there' =
      rw
        (
          number peer_id engine after packet to m p h there,
          number peer_id engine' after' packet' to' m' p' h' there',
        )
        (ground arith)
    where
      number :
          (peer_id : PeerId) (engine after : Engine PeerId) (packet : Bytes) (to : PeerId)
          (m : ForwardingMessage PeerId) (p : ForwardedPacket)
          → on_packet lib json peer_id engine packet ≡ (after, ok (to, m))
          → m.packet ≡ some p
          → p.sequence ≡ 1
      number peer_id engine after packet to m p h there =
          let s = on_packet-Sent peer_id engine after packet to m h in
          let o = describe-OfSession s.session_id packet s.inner s.described in
          ap (λ (q : ForwardedPacket). q.sequence)
            (sym (Sent-inner peer_id engine packet m s p there))
          ∙ o.numbered

  -- A payload that was sealed is within the limit.
  seal_payload-short :
      (channel : EncryptedChannel PeerId) (bs frame : Bytes)
      → (seal_payload lib json channel bs).1 ≡ ok frame
      → length bs ≤ 2048
  unfolding seal_payload open_plane Plane.send
  seal_payload-short channel bs frame h = ground arith

  -- What the client sends for a DNS query is accepted by a context for the client, its session and its
  -- route.
  validate_message-on_packet_dns :
      (laws : Laws lib) (peer_id : PeerId) (engine after : Engine PeerId) (packet : Bytes)
      (to : PeerId) (m : ForwardingMessage PeerId) (c : ForwardingContext PeerId) (a : SocketAddr)
      (port : ℕ) (q : Bytes)
      → extract_dns_payload packet ≡ ok (a, port, q)
      → on_packet lib json peer_id engine packet ≡ (after, ok (to, m))
      → engine.current_session_id ≡ some c.client_session_id
      → c.forwarding_id ≡ c.client_session_id
      → engine.active_route ≡ some c.route
      → c.client_peer ≡ peer_id
      → validate_message lib m c ≡ ok tt
  unfolding forwarding_message forwarded_packet
  validate_message-on_packet_dns laws peer_id engine after packet to m c a port q taken h id same_id
        route client =
      let s = on_packet-Sent peer_id engine after packet to m h in
      let inner : s.inner ≡ forwarded_packet s.session_id dns port a q =
        ground (arith, s.described, describe-dns s.session_id packet a port q taken) in
      let o = describe-OfSession s.session_id packet s.inner s.described in
      let same : s.session_id ≡ c.client_session_id = ground (arith, s.at_session) in
      (validate_message_iff lib m c).1 (
        rw s.message (record {
          kind = refl;
          ids = (same ∙ sym same_id, same);
          client = rw client (laws.parse-to_string peer_id);
          route = ground (arith, s.at_route);
          data_kind = refl;
          inner = (
            s.inner,
            refl,
            record {
              session = o.session ∙ same;
              ids = (o.ids.0 ∙ (same ∙ sym same_id), o.ids.1 ∙ (same ∙ sym same_id));
              short = seal_payload-short s.channel s.inner.payload s.frame s.sealed;
              numbered = omega (arith, o.numbered);
              addressed = rw inner (omega (arith, extract_dns_payload-port packet a port q taken));
              answerable = λ e. absurd (ground (arith, inner));
            },
          );
        }))
