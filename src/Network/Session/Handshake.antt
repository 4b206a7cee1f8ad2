-- ===== src/Network/Session/Handshake.antt =====
-- The two sides of the handshake in network/src/session.rs: `SessionInitiator` and
-- `SessionResponder`. Random values (the session's id, the ephemeral secrets) are arguments.
use real_layer.Base.Bytes.{Bytes}
use real_layer.Base.{
  String, Bool, List, [], ◌∷◌, Result, ok, err, ◌>>◌, ensure, reject, Eq, ◌==◌, nat_eq, string_eq,
  list_eq, all, any,
}
use real_layer.Network.Session.Types.{
  SessionId, initiator, responder, SessionState, negotiating, SessionError, invalid_route,
  invalid_key_material, duplicate_session, invalid_state, RouteBinding, HandshakeInit,
  HandshakeResponse, SecureSession, state_eq, route_eq, contains, validate_route,
}
use real_layer.Network.Session.Primitives.{Primitives}
use real_layer.Network.Session.Validation.{
  transcript, validate_init, validate_response, derive_session,
}

module _ (lib : Primitives) where
  open lib use {
    PeerId, to_string, parse, Keypair, PublicKey, public, to_peer_id, encode_protobuf,
    try_decode_protobuf, sign, verify, StaticSecret, ephemeral, diffie_hellman, sha256, hkdf,
    route_json,
  }

  instance abbrev pub peers : Eq PeerId
  peers = lib.peer_eq

  pub record SessionInitiator : Type 0 where
    pub identity : Keypair
    pub expected_peer : PeerId
    pub route : RouteBinding PeerId
    pub protocol_version : String
    pub session_id : SessionId
    pub secret : StaticSecret
    pub state : SessionState

  pub record SessionResponder : Type 0 where
    pub identity : Keypair
    pub seen_sessions : List SessionId

  -- `SessionInitiator::new`, with the random id and secret.
  unfoldable pub new_initiator :
      Keypair
      → (expected_peer : PeerId) → RouteBinding PeerId
      → (protocol_version : String) → SessionId
      → StaticSecret
      → Result SessionError SessionInitiator
  new_initiator identity expected_peer route protocol_version session_id secret = do
    validate_route route
    ensure (contains route expected_peer) (invalid_route "expected peer is not in route")
    ok (record {
      identity = identity;
      expected_peer = expected_peer;
      route = route;
      protocol_version = protocol_version;
      session_id = session_id;
      secret = secret;
      state = negotiating;
    })

  unfoldable pub ensure_state :
      SessionInitiator → SessionState → (operation : String) → Result SessionError (Unit {0})
  ensure_state i expected operation = ensure (i.state == expected) (invalid_state i.state operation)

  unfoldable pub build_init : SessionInitiator → Result SessionError (HandshakeInit PeerId)
  unfolding ensure_state
  build_init i = do
    ensure_state i negotiating "build_init"
    let key = public i.identity
    let public_bytes = encode_protobuf key
    let ephemeral_key = ephemeral i.secret
    ok (record {
      kind = "secure_session_init";
      protocol_version = i.protocol_version;
      session_id = i.session_id;
      initiator_identity = to_string (to_peer_id key);
      responder_identity = to_string i.expected_peer;
      initiator_public_key = public_bytes;
      ephemeral_public_key = ephemeral_key;
      route_context = i.route;
      authentication =
          sign i.identity
            (transcript lib i.protocol_version i.session_id i.route public_bytes ephemeral_key);
    })

  abbrev pub is_zero : Bytes → Bool
  is_zero shared = all (λ byte. byte == 0) shared

  -- `complete` consumes the initiator.
  unfoldable pub complete :
      SessionInitiator → HandshakeResponse PeerId → Result SessionError (SecureSession PeerId)
  complete i response = do
    ensure (i.state == negotiating) (invalid_state i.state "complete")
    validate_response lib response i.session_id (to_peer_id (public i.identity)) i.expected_peer
        i.route i.protocol_version
    let shared = diffie_hellman i.secret response.ephemeral_public_key
    reject (is_zero shared) invalid_key_material
    ok (derive_session lib i.session_id i.expected_peer i.route initiator shared i.protocol_version)

  unfoldable pub new_responder : Keypair → SessionResponder
  new_responder identity = record { identity = identity; seen_sessions = [] }

  -- `HashSet::contains`
  unfoldable pub is_seen : SessionId → List SessionId → Bool
  is_seen session_id seen = any (λ other. other == session_id) seen

  -- The checks of `accept_init` that come before it records the session.
  unfoldable pub admit :
      SessionResponder
      → HandshakeInit PeerId
      → (transport_peer : PeerId) → (protocol_version : String) → Result SessionError (Unit {0})
  admit r init transport_peer protocol_version = do
    reject (is_seen init.session_id r.seen_sessions) duplicate_session
    validate_init lib init transport_peer (to_peer_id (public r.identity)) init.route_context
        protocol_version
    ensure (contains init.route_context (to_peer_id (public r.identity)))
        (invalid_route "route does not include responder")

  -- The answer of `accept_init`, with the random secret.
  unfoldable pub respond :
      SessionResponder
      → HandshakeInit PeerId
      → (transport_peer : PeerId) → (protocol_version : String) → StaticSecret
      → Result SessionError (HandshakeResponse PeerId × SecureSession PeerId)
  respond r init transport_peer protocol_version secret = do
    let key = public r.identity
    let public_bytes = encode_protobuf key
    let ephemeral_key = ephemeral secret
    let response : HandshakeResponse PeerId = record {
      kind = "secure_session_response";
      protocol_version = protocol_version;
      session_id = init.session_id;
      initiator_identity = init.initiator_identity;
      responder_identity = to_string (to_peer_id key);
      responder_public_key = public_bytes;
      ephemeral_public_key = ephemeral_key;
      route_context = init.route_context;
      authentication = sign r.identity (
          transcript lib protocol_version init.session_id init.route_context public_bytes
            ephemeral_key);
    }
    let shared = diffie_hellman secret init.ephemeral_public_key
    reject (is_zero shared) invalid_key_material
    ok (
      response,
      derive_session lib init.session_id transport_peer init.route_context responder shared
          protocol_version,
    )

  -- A session that passed the checks is recorded also if the answer then fails.
  unfoldable pub accept_init :
      SessionResponder
      → HandshakeInit PeerId
      → (transport_peer : PeerId) → (protocol_version : String) → StaticSecret
      → SessionResponder × Result SessionError (HandshakeResponse PeerId × SecureSession PeerId)
  accept_init r init transport_peer protocol_version secret =
      elim (admit r init transport_peer protocol_version) [
        | err e ↦ (r, err e)
        | ok u ↦ (
          record r { seen_sessions = init.session_id ∷ r.seen_sessions },
          respond r init transport_peer protocol_version secret,
        )
      ]
