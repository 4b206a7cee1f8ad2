-- ===== src/Relay/Forwarding/Messages.antt =====
-- Which contexts can be made, and which messages of relay/src/forwarding.rs a context takes.
use text.Mathlib.TextEquality.{eq_iff}
use real_layer.Base.{
  String, ◌≡◌, ◌≢◌, ◌↔◌, ◌≤◌, ◌<◌, refl, false, Option, none, some, ok, arith, Eq, nat_eq,
  string_eq, list_eq, list_beq_iff, option_eq, option_beq_iff, length, Option-cases, inl, inr,
}
use real_layer.Network.Session.Types.{
  SessionId, RouteBinding, one_hop, two_hop, route_eq, route_beq_iff,
}
use real_layer.Network.Session.Primitives.{Primitives}
use real_layer.Network.Address.{SocketAddr}
use real_layer.Relay.Forwarding.{
  ForwardingContext, ForwardingMessage, ForwardedPacket, ForwardedProtocol, tcp, udp, dns, ip,
  is_route, with_forwarding_id, validate_packet, validate_message, lacks_source, created,
}

module _ (lib : Primitives) where
  open lib use {PeerId, parse}

  instance abbrev peers : Eq PeerId
  peers = lib.peer_eq

  -- A packet of the circuit.
  pub record Belongs (p : ForwardedPacket) (c : ForwardingContext PeerId) : Type 0 where
    pub session : p.session_id ≡ c.client_session_id
    pub ids : (p.route_id ≡ c.forwarding_id) × (p.flow_id ≡ c.forwarding_id)
    pub short : length p.payload ≤ 2048
    pub numbered : 0 < p.sequence
    pub addressed : 0 < p.destination.port
    pub answerable : p.protocol ≡ udp → p.source ≢ none

  -- A message of the circuit, with a packet of it.
  pub record Matches (m : ForwardingMessage PeerId) (c : ForwardingContext PeerId) : Type 0 where
    pub kind : m.kind ≡ "ghost_layer_forwarding"
    pub ids : (m.forwarding_id ≡ c.forwarding_id) × (m.client_session_id ≡ c.client_session_id)
    pub client : parse m.client_peer ≡ some c.client_peer
    pub route : m.route ≡ c.route
    pub data_kind : m.data_envelope.kind ≡ "data_plane"
    pub inner : (p : ForwardedPacket) × (m.packet ≡ some p) × Belongs p c

  lacks_source_iff :
      (protocol : ForwardedProtocol) (source : Option SocketAddr)
      → (lacks_source lib protocol source ≡ false) ↔ (protocol ≡ udp → source ≢ none)
  unfolding lacks_source
  lacks_source_iff udp none = (λ h. ground arith, λ h. absurd (h refl refl))
  lacks_source_iff udp (some a) = (λ h same e. ground arith, λ h. refl)
  lacks_source_iff tcp source = (λ h same. ground arith, λ h. refl)
  lacks_source_iff dns source = (λ h same. ground arith, λ h. refl)
  lacks_source_iff ip source = (λ h same. ground arith, λ h. refl)

  validate_packet_iff :
      (p : ForwardedPacket) (c : ForwardingContext PeerId)
      → (validate_packet lib p c ≡ ok tt) ↔ Belongs p c
  unfolding validate_packet
  validate_packet_iff p c =
      let same_session = list_beq_iff p.session_id c.client_session_id in
      let same_route = list_beq_iff p.route_id c.forwarding_id in
      let same_flow = list_beq_iff p.flow_id c.forwarding_id in
      let source = lacks_source_iff p.protocol p.source in
      (
        λ h. record {
          session = ground arith;
          ids = (ground arith, ground arith);
          short = ground arith;
          numbered = ground arith;
          addressed = ground arith;
          answerable = source.0 (ground arith);
        },
        λ b.
            ground
              (arith, b.session, b.ids, b.short, b.numbered, b.addressed, source.1 b.answerable),
      )

  -- A context takes a message exactly when the message has the right kinds, the context's
  -- identifiers, client and route, and a packet of the circuit: with its identifiers, a payload
  -- within the limit, a number and a port above 0, and for UDP a source.
  pub validate_message_iff :
      (m : ForwardingMessage PeerId) (c : ForwardingContext PeerId)
      → (validate_message lib m c ≡ ok tt) ↔ Matches m c
  unfolding validate_message
  validate_message_iff m c =
      let same_kind = eq_iff m.kind "ghost_layer_forwarding" in
      let same_id = list_beq_iff m.forwarding_id c.forwarding_id in
      let same_session = list_beq_iff m.client_session_id c.client_session_id in
      let same_client = option_beq_iff (parse m.client_peer) (some c.client_peer) in
      let same_route = route_beq_iff m.route c.route in
      let same_data = eq_iff m.data_envelope.kind "data_plane" in
      elim (Option-cases m.packet) [
        | inl missing ↦ (λ h. absurd (ground arith), λ x. absurd (ground (arith, x.inner)))
        | inr (p, there) ↦ (
          λ h. record {
            kind = ground arith;
            ids = (ground arith, ground arith);
            client = ground arith;
            route = ground arith;
            data_kind = ground arith;
            inner = (p, there, (validate_packet_iff p c).0 (ground arith));
          },
          λ x. ground (
            arith,
            x.kind,
            x.ids,
            x.client,
            x.route,
            x.data_kind,
            x.inner,
            (validate_packet_iff p c).1,
          ),
        )
      ]

  -- A context at the start of its life.
  abbrev pub initial :
      (forwarding_id client_session_id : SessionId) (client_peer entry_peer exit_peer : PeerId)
      (route : RouteBinding PeerId)
      → ForwardingContext PeerId
  initial forwarding_id client_session_id client_peer entry_peer exit_peer route = record {
    forwarding_id = forwarding_id;
    client_session_id = client_session_id;
    client_peer = client_peer;
    entry_peer = entry_peer;
    exit_peer = exit_peer;
    route = route;
    state = created;
    relay_session_id = none;
    last_request = none;
    last_sequence = none;
  }

  -- A context is made, in its initial state, exactly for a route of two hops over the given relays,
  -- where the client and the two relays are three different peers.
  with_forwarding_id_iff :
      (forwarding_id client_session_id : SessionId) (client_peer entry_peer exit_peer : PeerId)
      (route : RouteBinding PeerId)
      → (with_forwarding_id lib forwarding_id client_session_id client_peer entry_peer exit_peer
            route
          ≡ ok (initial forwarding_id client_session_id client_peer entry_peer exit_peer route))
        ↔ (((address : String) × (route ≡ two_hop entry_peer exit_peer address))
            × (entry_peer ≢ exit_peer)
            × (client_peer ≢ entry_peer)
            × (client_peer ≢ exit_peer))
  unfolding with_forwarding_id is_route
  with_forwarding_id_iff forwarding_id id client entry exit (one_hop relay) =
      (λ h. ground arith, λ h. ground arith)
  with_forwarding_id_iff forwarding_id id client entry exit (two_hop a b address) =
      let same_entry = lib.peer_eq.beq_iff a entry in
      let same_exit = lib.peer_eq.beq_iff b exit in
      let same_hops = lib.peer_eq.beq_iff a b in
      let at_entry = lib.peer_eq.beq_iff client entry in
      let at_exit = lib.peer_eq.beq_iff client exit in
      (
        λ h. ((address, ground arith), λ e. ground arith, λ e. ground arith, λ e. ground arith),
        λ ((address', e), hops, first, second). ground arith,
      )
