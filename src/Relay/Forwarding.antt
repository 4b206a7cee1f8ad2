-- ===== src/Relay/Forwarding.antt =====
-- relay/src/forwarding.rs: the context of a two-hop circuit at a relay. `ForwardingContext::new` is
-- `with_forwarding_id` at a random id. A method with `&mut self` returns the context after the call
-- beside its result.
pub mod Steps
pub mod Lifecycle
pub mod Messages
pub mod Sequences
use real_layer.Base.Bytes.{Bytes}
use real_layer.Base.{
  ℕ, String, ◌≡◌, ◌↔◌, Bool, true, false, ◌&&◌, ◌||◌, not, Option, none, some, Result, ok, err,
  ◌>>=◌, ◌>>◌, ensure, reject, ok_or, arith, Eq, ◌==◌, nat_eq, string_eq, list_eq, option_eq, leb,
  ltb, length, if◌then◌else◌,
}
use real_layer.Network.Address.{SocketAddr}
use real_layer.Network.Session.Types.{SessionId, RouteBinding, one_hop, two_hop, route_eq}
use real_layer.Network.Session.Primitives.{Primitives}
use real_layer.Network.DataPlane.{DataPlaneEnvelope, data_plane_kind, default_maximum_payload_size}

abbrev pub forwarding_kind : String
forwarding_kind = "ghost_layer_forwarding"

pub data ForwardedProtocol : Type 0 where
  tcp udp dns ip : ForwardedProtocol

pub record ForwardedPacket : Type 0 where
  pub protocol : ForwardedProtocol
  pub source : Option SocketAddr
  pub destination : SocketAddr
  pub flow_id : SessionId
  pub session_id : SessionId
  pub route_id : SessionId
  pub sequence : ℕ
  pub payload : Bytes

pub data ForwardingDirection : Type 0 where
  client_to_exit exit_to_client : ForwardingDirection

pub data ForwardingState : Type 0 where
  created connecting established forwarding closing closed : ForwardingState

pub record ForwardingMessage (P : Type 0) : Type 0 where
  pub kind : String
  pub forwarding_id : SessionId
  pub client_session_id : SessionId
  pub client_peer : String
  pub route : RouteBinding P
  pub data_envelope : DataPlaneEnvelope
  pub packet : Option ForwardedPacket

pub data ForwardingError : Type 0 where
  invalid_state : ForwardingState → (operation : String) → ForwardingError
  invalid_route invalid_forwarding_context wrong_entry_relay wrong_exit_relay : ForwardingError
  wrong_session_binding duplicate_forwarding_request closed_context : ForwardingError
  malformed_forwarding_message oversized_payload exit_unavailable : ForwardingError
  entry_session_closed exit_session_closed authentication_failed : ForwardingError
  sequence_violation unsupported_protocol forwarding_timeout backpressure : ForwardingError
  unexpected_protocol_message shutdown : ForwardingError

pub record ForwardingContext (P : Type 0) : Type 0 where
  pub forwarding_id : SessionId
  pub client_session_id : SessionId
  pub client_peer : P
  pub entry_peer : P
  pub exit_peer : P
  pub route : RouteBinding P
  pub state : ForwardingState
  pub relay_session_id : Option SessionId
  pub last_request : Option (SessionId × ForwardingDirection)
  pub last_sequence : Option ℕ

abbrev pub direction_beq : ForwardingDirection → ForwardingDirection → Bool
direction_beq client_to_exit client_to_exit = true
direction_beq exit_to_client exit_to_client = true
direction_beq a b = false

abbrev pub state_beq : ForwardingState → ForwardingState → Bool
state_beq created created = true
state_beq connecting connecting = true
state_beq established established = true
state_beq forwarding forwarding = true
state_beq closing closing = true
state_beq closed closed = true
state_beq a b = false

pub state_beq_iff : (a b : ForwardingState) → (state_beq a b ≡ true) ↔ (a ≡ b)
state_beq_iff a b = ground arith

instance abbrev pub forwarding_state_eq : Eq ForwardingState
forwarding_state_eq = record { beq = state_beq; beq_iff = state_beq_iff }

-- `self.last_request == Some((request_id, direction))`
unfoldable pub is_repeated :
    Option (SessionId × ForwardingDirection) → SessionId → ForwardingDirection → Bool
is_repeated none id direction = false
is_repeated (some (last, last_direction)) id direction =
    last == id && direction_beq last_direction direction

-- `sequence == 0 || self.last_sequence.is_some_and(|last| sequence <= last)`
unfoldable pub is_violation : Option ℕ → ℕ → Bool
is_violation none sequence = sequence == 0
is_violation (some last) sequence = sequence == 0 || leb sequence last

module _ (lib : Primitives) where
  open lib use {PeerId, parse}

  instance abbrev pub peers : Eq PeerId
  peers = lib.peer_eq

  -- The `match route` of `with_forwarding_id`.
  unfoldable pub is_route : RouteBinding PeerId → (entry_peer exit_peer : PeerId) → Bool
  is_route (one_hop relay) entry_peer exit_peer = false
  is_route (two_hop entry exit address) entry_peer exit_peer =
      entry == entry_peer && exit == exit_peer && not (entry == exit)

  unfoldable pub with_forwarding_id :
      (forwarding_id client_session_id : SessionId)
      → (client_peer entry_peer exit_peer : PeerId) → RouteBinding PeerId
      → Result ForwardingError (ForwardingContext PeerId)
  with_forwarding_id forwarding_id client_session_id client_peer entry_peer exit_peer route = do
    ensure (is_route route entry_peer exit_peer) invalid_route
    reject (client_peer == entry_peer || client_peer == exit_peer) invalid_route
    ok (record {
      forwarding_id = forwarding_id;
      client_session_id = client_session_id;
      client_peer = client_peer;
      entry_peer = entry_peer;
      exit_peer = exit_peer;
      route = route;
      state = created;
      relay_session_id = none;
      last_request = none;
      last_sequence = none;
    })

  abbrev pub Answer : Type 0
  Answer = ForwardingContext PeerId × Result ForwardingError (Unit {0})

  unfoldable pub bind_relay_session : SessionId → ForwardingContext PeerId → Answer
  bind_relay_session id c =
      if c.state == established
      then (record c { relay_session_id = some id }, ok tt)
      else (c, err (invalid_state c.state "bind relay session"))

  unfoldable pub transition :
      (expected next : ForwardingState) → (operation : String) → ForwardingContext PeerId → Answer
  transition expected next operation c =
      if c.state == expected
      then (record c { state = next }, ok tt)
      else (c, err (invalid_state c.state operation))

  unfoldable pub transition_connecting : ForwardingContext PeerId → Answer
  unfolding transition
  transition_connecting c = transition created connecting "connect" c

  unfoldable pub transition_established : ForwardingContext PeerId → Answer
  unfolding transition
  transition_established c = transition connecting established "establish" c

  unfoldable pub begin_forwarding :
      SessionId → ForwardingDirection → ForwardingContext PeerId → Answer
  begin_forwarding request_id direction c =
      if c.state == closing || c.state == closed
      then (c, err closed_context)
      else if not (c.state == established || c.state == forwarding)
      then (c, err (invalid_state c.state "forward"))
      else if is_repeated c.last_request request_id direction
      then (c, err duplicate_forwarding_request)
      else (record c { last_request = some (request_id, direction); state = forwarding }, ok tt)

  unfoldable pub transition_closing : ForwardingContext PeerId → Answer
  transition_closing c =
      if c.state == created || c.state == closed
      then (c, err (invalid_state c.state "close"))
      else (record c { state = closing }, ok tt)

  unfoldable pub transition_closed : ForwardingContext PeerId → Answer
  transition_closed c =
      if c.state == closing
      then (record c { state = closed }, ok tt)
      else (c, err (invalid_state c.state "finish close"))

  unfoldable pub validate_client :
      SessionId → PeerId → ForwardingContext PeerId → Result ForwardingError (Unit {0})
  validate_client id peer c = do
    ensure (id == c.client_session_id) wrong_session_binding
    ensure (peer == c.client_peer) wrong_entry_relay

  unfoldable pub validate_entry :
      PeerId → ForwardingContext PeerId → Result ForwardingError (Unit {0})
  validate_entry peer c = ensure (peer == c.entry_peer) wrong_entry_relay

  unfoldable pub validate_exit :
      PeerId → ForwardingContext PeerId → Result ForwardingError (Unit {0})
  validate_exit peer c = ensure (peer == c.exit_peer) wrong_exit_relay

  -- `matches!(packet.protocol, Udp) && packet.source.is_none()`
  unfoldable pub lacks_source : ForwardedProtocol → Option SocketAddr → Bool
  lacks_source udp none = true
  lacks_source protocol source = false

  unfoldable pub validate_packet :
      ForwardedPacket → ForwardingContext PeerId → Result ForwardingError (Unit {0})
  validate_packet p c = do
    ensure
        (p.session_id == c.client_session_id
          && p.route_id == c.forwarding_id
          && p.flow_id == c.forwarding_id
          && leb (length p.payload) default_maximum_payload_size)
        invalid_forwarding_context
    reject (p.sequence == 0) sequence_violation
    reject (p.destination.port == 0) malformed_forwarding_message
    reject (lacks_source p.protocol p.source) malformed_forwarding_message

  unfoldable pub validate_message :
      ForwardingMessage PeerId → ForwardingContext PeerId → Result ForwardingError (Unit {0})
  validate_message m c = do
    ensure (m.kind == forwarding_kind) malformed_forwarding_message
    ensure
        (m.forwarding_id == c.forwarding_id
          && m.client_session_id == c.client_session_id
          && parse m.client_peer == some c.client_peer
          && m.route == c.route)
        invalid_forwarding_context
    ensure (m.data_envelope.kind == data_plane_kind) unexpected_protocol_message
    packet ← ok_or m.packet malformed_forwarding_message
    validate_packet packet c

  unfoldable pub accept_sequence : ℕ → ForwardingContext PeerId → Answer
  accept_sequence sequence c =
      if is_violation c.last_sequence sequence
      then (c, err sequence_violation)
      else (record c { last_sequence = some sequence }, ok tt)

  unfoldable pub validate_relay_session :
      SessionId → ForwardingContext PeerId → Result ForwardingError (Unit {0})
  validate_relay_session id c = ensure (c.relay_session_id == some id) wrong_session_binding
