-- ===== src/Network/Session/Answers.antt =====
-- `SessionInitiator::complete` of network/src/session.rs, on any answer.
use text.Mathlib.TextEquality.{eq_iff}
use real_layer.Base.{String, ◌≡◌, some, ok, arith, Eq, Option-cases, inl, inr, list_beq_iff, nat_eq}
use real_layer.Network.Session.Types.{
  SessionId, negotiating, HandshakeResponse, SecureSession, RouteBinding, route_beq_iff, initiator,
  state_beq_iff,
}
use real_layer.Network.Session.Primitives.{Primitives}
use real_layer.Network.Session.Validation.{validate_response, transcript, derive_session}
use real_layer.Network.Session.Handshake.{SessionInitiator, complete}
use real_layer.Network.Session.Authentication.{SignedBy}

module _ (lib : Primitives) where
  open lib use {PeerId, public, to_peer_id, parse, try_decode_protobuf, diffie_hellman}

  instance abbrev peers : Eq PeerId
  peers = lib.peer_eq

  -- The answer is to this initiator's message and is signed by the expected peer.
  pub record Answered (i : SessionInitiator lib) (response : HandshakeResponse PeerId)
      (session : SecureSession PeerId) : Type 0 where
    pub pending : i.state ≡ negotiating
    pub version : response.protocol_version ≡ i.protocol_version
    pub same_id : response.session_id ≡ i.session_id
    pub same_route : response.route_context ≡ i.route
    pub names_initiator : parse response.initiator_identity ≡ some (to_peer_id (public i.identity))
    pub signature :
        SignedBy lib i.expected_peer response.responder_public_key
          (transcript lib i.protocol_version i.session_id i.route response.responder_public_key
            response.ephemeral_public_key)
          response.authentication
    pub derived :
        session
        ≡ derive_session lib i.session_id i.expected_peer i.route initiator
            (diffie_hellman i.secret response.ephemeral_public_key)
            i.protocol_version

  module _ (response : HandshakeResponse PeerId) (id : SessionId)
      (initiator_peer expected_peer : PeerId) (route : RouteBinding PeerId) (protocol : String)
      (passed : validate_response lib response id initiator_peer expected_peer route protocol
        ≡ ok tt) where
    response-context :
        (response.protocol_version ≡ protocol)
        × (response.session_id ≡ id)
        × (response.route_context ≡ route)
    unfolding validate_response
    response-context = ground (
      arith,
      eq_iff response.protocol_version protocol,
      list_beq_iff response.session_id id,
      route_beq_iff response.route_context route,
    )

    response-SignedBy :
        SignedBy lib expected_peer response.responder_public_key
          (transcript lib protocol id route response.responder_public_key
            response.ephemeral_public_key)
          response.authentication
    unfolding validate_response
    response-SignedBy = elim (Option-cases (try_decode_protobuf response.responder_public_key)) [
      | inl e ↦ ground arith
      | inr (key, e) ↦ record {
        key = key;
        decoded = e;
        owner = ground (arith, lib.peer_eq.beq_iff (to_peer_id key) expected_peer);
        signed = ground arith;
      }
    ]

    response-initiator : parse response.initiator_identity ≡ some initiator_peer
    unfolding validate_response
    response-initiator = elim (Option-cases (parse response.initiator_identity)) [
      | inl e ↦ ground (arith, response-SignedBy.decoded)
      | inr (p, e) ↦ ground (arith, response-SignedBy.decoded, lib.peer_eq.beq_iff p initiator_peer)
    ]

  complete-ok :
      (i : SessionInitiator lib) (response : HandshakeResponse PeerId)
      (session : SecureSession PeerId)
      → complete lib i response ≡ ok session
      → (i.state ≡ negotiating)
        × (validate_response lib response i.session_id
              (to_peer_id (public i.identity))
              i.expected_peer
              i.route
              i.protocol_version
            ≡ ok tt)
        × (session
            ≡ derive_session lib i.session_id i.expected_peer i.route initiator
                (diffie_hellman i.secret response.ephemeral_public_key)
                i.protocol_version)
  unfolding complete
  complete-ok i response session h = ground (arith, state_beq_iff i.state negotiating)

  -- An initiator that returns a session was still negotiating; the answer has its session id, route
  -- and protocol version, names it as the initiator, and carries the key of the expected peer and
  -- that key's signature of the transcript. The session is derived from the exchange with the
  -- answer's ephemeral key.
  pub complete-Answered :
      (i : SessionInitiator lib) (response : HandshakeResponse PeerId)
      (session : SecureSession PeerId)
      → complete lib i response ≡ ok session
      → Answered i response session
  complete-Answered i response session h =
      let (pending, passed, derived) = complete-ok i response session h in
      let self = to_peer_id (public i.identity) in
      let (version, id, route) =
        response-context response i.session_id self i.expected_peer i.route i.protocol_version
          passed in
      record {
        pending = pending;
        version = version;
        same_id = id;
        same_route = route;
        names_initiator =
            response-initiator response i.session_id self i.expected_peer i.route i.protocol_version
              passed;
        signature =
            response-SignedBy response i.session_id self i.expected_peer i.route i.protocol_version
              passed;
        derived = derived;
      }
