-- ===== src/Network/Session/Authentication.antt =====
-- `SessionResponder::accept_init` of network/src/session.rs, on any message.
use text.Mathlib.TextEquality.{eq_iff}
use real_layer.Base.Bytes.{Bytes}
use real_layer.Base.{
  String, ◌∷◌, ◌≡◌, true, false, some, ok, arith, Eq, nat_eq, Option-cases, inl, inr, list_eq,
}
use real_layer.Network.Session.Types.{
  HandshakeInit, HandshakeResponse, SecureSession, RouteBinding, contains, validate_route,
}
use real_layer.Network.Session.Primitives.{Primitives}
use real_layer.Network.Session.Validation.{validate_init, transcript, derive_session}
use real_layer.Network.Session.Handshake.{SessionResponder, is_seen, admit, respond, accept_init}

module _ (lib : Primitives) where
  open lib use {
    PeerId, PublicKey, public, to_peer_id, parse, try_decode_protobuf, verify, to_string,
    StaticSecret, diffie_hellman,
  }

  instance abbrev peers : Eq PeerId
  peers = lib.peer_eq

  -- A message signed by the holder of a key, and a key that is the named peer's.
  pub record SignedBy (peer : PeerId) (key_bytes message signature : Bytes) : Type 0 where
    pub key : PublicKey
    pub decoded : try_decode_protobuf key_bytes ≡ some key
    pub owner : to_peer_id key ≡ peer
    pub signed : verify key message signature ≡ true

  validate_init-SignedBy :
      (init : HandshakeInit PeerId) (transport_peer responder_peer : PeerId)
      (route : RouteBinding PeerId) (protocol : String)
      → validate_init lib init transport_peer responder_peer route protocol ≡ ok tt
      → SignedBy transport_peer init.initiator_public_key
          (transcript lib protocol init.session_id route init.initiator_public_key
            init.ephemeral_public_key)
          init.authentication
  unfolding validate_init
  validate_init-SignedBy init transport_peer responder_peer route protocol h =
      elim (Option-cases (try_decode_protobuf init.initiator_public_key)) [
        | inl e ↦ ground arith
        | inr (key, e) ↦ record {
          key = key;
          decoded = e;
          owner = ground (arith, lib.peer_eq.beq_iff (to_peer_id key) transport_peer);
          signed = ground arith;
        }
      ]

  -- What the checks make of the identities that the message names.
  module _ (init : HandshakeInit PeerId) (transport_peer responder_peer : PeerId)
      (route : RouteBinding PeerId) (protocol : String)
      (passed : validate_init lib init transport_peer responder_peer route protocol ≡ ok tt) where
    validate_init-version : (init.protocol_version ≡ protocol) × (validate_route route ≡ ok tt)
    unfolding validate_init
    validate_init-version = ground (arith, eq_iff init.protocol_version protocol)

    validate_init-responder : parse init.responder_identity ≡ some responder_peer
    unfolding validate_init
    validate_init-responder = elim (Option-cases (parse init.responder_identity)) [
      | inl e ↦ ground arith
      | inr (p, e) ↦ ground (arith, lib.peer_eq.beq_iff p responder_peer)
    ]

    validate_init-initiator : parse init.initiator_identity ≡ some transport_peer
    unfolding validate_init
    validate_init-initiator = elim (Option-cases (parse init.initiator_identity)) [
      | inl e ↦ ground arith
      | inr (p, e) ↦
          let s = validate_init-SignedBy init transport_peer responder_peer route protocol passed in
          ground (arith, lib.peer_eq.beq_iff p (to_peer_id s.key), s.decoded, s.owner)
    ]

  -- What a responder knows of a session that it has accepted.
  pub record Authentic (r : SessionResponder lib) (init : HandshakeInit PeerId)
      (transport_peer : PeerId) (protocol : String) (session : SecureSession PeerId) : Type 0 where
    pub fresh : is_seen lib init.session_id r.seen_sessions ≡ false
    pub version : init.protocol_version ≡ protocol
    pub valid : validate_route init.route_context ≡ ok tt
    pub inside : contains init.route_context (to_peer_id (public r.identity)) ≡ true
    pub names_responder : parse init.responder_identity ≡ some (to_peer_id (public r.identity))
    pub names_initiator : parse init.initiator_identity ≡ some transport_peer
    pub signature :
        SignedBy transport_peer init.initiator_public_key
          (transcript lib protocol init.session_id init.route_context init.initiator_public_key
            init.ephemeral_public_key)
          init.authentication
    pub session_id : session.session_id ≡ init.session_id
    pub session_peer : session.peer_id ≡ transport_peer
    pub session_route : session.route ≡ init.route_context

  admit-ok :
      (r : SessionResponder lib) (init : HandshakeInit PeerId) (transport_peer : PeerId)
      (protocol : String)
      → admit lib r init transport_peer protocol ≡ ok tt
      → (is_seen lib init.session_id r.seen_sessions ≡ false)
        × (validate_init lib init transport_peer
              (to_peer_id (public r.identity))
              init.route_context
              protocol
            ≡ ok tt)
        × (contains init.route_context (to_peer_id (public r.identity)) ≡ true)
  unfolding admit
  admit-ok r init transport_peer protocol h = ground arith

  respond-ok :
      (r : SessionResponder lib) (init : HandshakeInit PeerId) (transport_peer : PeerId)
      (protocol : String) (secret : StaticSecret) (response : HandshakeResponse PeerId)
      (session : SecureSession PeerId)
      → respond lib r init transport_peer protocol secret ≡ ok (response, session)
      → (session.session_id ≡ init.session_id)
        × (session.peer_id ≡ transport_peer)
        × (session.route ≡ init.route_context)
  unfolding respond derive_session
  respond-ok r init transport_peer protocol secret response session h = ground arith

  pub accept_init-ok :
      (r r' : SessionResponder lib) (init : HandshakeInit PeerId) (transport_peer : PeerId)
      (protocol : String) (secret : StaticSecret)
      (result : HandshakeResponse PeerId × SecureSession PeerId)
      → accept_init lib r init transport_peer protocol secret ≡ (r', ok result)
      → (admit lib r init transport_peer protocol ≡ ok tt)
        × (respond lib r init transport_peer protocol secret ≡ ok result)
        × (r' ≡ record r { seen_sessions = init.session_id ∷ r.seen_sessions })
  unfolding accept_init
  accept_init-ok r r' init transport_peer protocol secret result h = ground arith

  -- A responder that returns a session had not seen its id; the message is for this responder, which
  -- is on the valid route, under the same protocol version; and it carries the key of the peer at the
  -- other end of the transport and that key's signature of the transcript. The session has the
  -- message's id and route, and names that peer.
  pub accept_init-Authentic :
      (r r' : SessionResponder lib) (init : HandshakeInit PeerId) (transport_peer : PeerId)
      (protocol : String) (secret : StaticSecret) (response : HandshakeResponse PeerId)
      (session : SecureSession PeerId)
      → accept_init lib r init transport_peer protocol secret ≡ (r', ok (response, session))
      → Authentic r init transport_peer protocol session
  accept_init-Authentic r r' init transport_peer protocol secret response session h =
      let self = to_peer_id (public r.identity) in
      let (admitted, responded, _) =
        accept_init-ok r r' init transport_peer protocol secret (response, session) h in
      let (fresh, passed, inside) = admit-ok r init transport_peer protocol admitted in
      let (version, valid) =
        validate_init-version init transport_peer self init.route_context protocol passed in
      let (id, peer, route) =
        respond-ok r init transport_peer protocol secret response session responded in
      record {
        fresh = fresh;
        version = version;
        valid = valid;
        inside = inside;
        names_responder =
            validate_init-responder init transport_peer self init.route_context protocol passed;
        names_initiator =
            validate_init-initiator init transport_peer self init.route_context protocol passed;
        signature =
            validate_init-SignedBy init transport_peer self init.route_context protocol passed;
        session_id = id;
        session_peer = peer;
        session_route = route;
      }
