-- ===== src/Network/Session/Messages.antt =====
-- The messages of a handshake of network/src/session.rs between two honest peers.
use real_layer.Base.{String, ◌≡◌, true, ok, arith, Eq, ==_refl, string_eq, list_eq}
use real_layer.Network.Session.Types.{
  SessionId, negotiating, RouteBinding, HandshakeInit, HandshakeResponse, state_eq, contains,
  validate_route, route_eq, route_beq,
}
use real_layer.Network.Session.Primitives.{Primitives, Laws}
use real_layer.Network.Session.Validation.{validate_init, validate_response, transcript}
use real_layer.Network.Session.Handshake.{SessionInitiator, new_initiator}

module _ (lib : Primitives) where
  open lib use {
    PeerId, Keypair, public, to_peer_id, StaticSecret, ephemeral, diffie_hellman, to_string,
    encode_protobuf, sign,
  }

  instance abbrev peers : Eq PeerId
  peers = lib.peer_eq

  abbrev pub peer_of : Keypair → PeerId
  peer_of k = to_peer_id (public k)

  -- What `new` fixes in an initiator.
  pub new_initiator-ok :
      (k : Keypair) (expected_peer : PeerId) (route : RouteBinding PeerId) (protocol : String)
      (id : SessionId) (secret : StaticSecret) (i : SessionInitiator lib)
      → new_initiator lib k expected_peer route protocol id secret ≡ ok i
      → (i ≡ record {
        identity = k;
        expected_peer = expected_peer;
        route = route;
        protocol_version = protocol;
        session_id = id;
        secret = secret;
        state = negotiating;
      })
        × (validate_route route ≡ ok tt)
        × (contains route expected_peer ≡ true)
  unfolding new_initiator
  new_initiator-ok k expected_peer route protocol id secret i h = ground arith

  unfoldable pub init_of :
      (k : Keypair) (expected_peer : PeerId) (route : RouteBinding PeerId) (protocol : String)
      (id : SessionId) (secret : StaticSecret)
      → HandshakeInit PeerId
  init_of k expected_peer route protocol id secret = record {
    kind = "secure_session_init";
    protocol_version = protocol;
    session_id = id;
    initiator_identity = to_string (peer_of k);
    responder_identity = to_string expected_peer;
    initiator_public_key = encode_protobuf (public k);
    ephemeral_public_key = ephemeral secret;
    route_context = route;
    authentication =
        sign k (transcript lib protocol id route (encode_protobuf (public k)) (ephemeral secret));
  }

  peer_refl : (p : PeerId) → lib.peer_eq.beq p p ≡ true
  peer_refl p = ==_refl p

  route_refl : (r : RouteBinding PeerId) → route_beq r r ≡ true
  route_refl r = ==_refl r

  -- The initiator's message passes the responder's checks.
  pub validate_init-init_of :
      Laws lib
      → (k l : Keypair) (route : RouteBinding PeerId) (protocol : String) (id : SessionId)
        (secret : StaticSecret)
      → validate_route route ≡ ok tt
      → validate_init lib
          (init_of k (peer_of l) route protocol id secret)
          (peer_of k)
          (peer_of l)
          route
          protocol
        ≡ ok tt
  unfolding validate_init init_of
  validate_init-init_of laws k l route protocol id secret valid = simp (
    valid,
    ==_refl {A = String},
    laws.parse-to_string,
    laws.decode-encode,
    laws.verify-sign,
    peer_refl,
    route_refl,
  )

  unfoldable pub response_of :
      (k l : Keypair) (route : RouteBinding PeerId) (protocol : String) (id : SessionId)
      (secret : StaticSecret)
      → HandshakeResponse PeerId
  response_of k l route protocol id secret = record {
    kind = "secure_session_response";
    protocol_version = protocol;
    session_id = id;
    initiator_identity = to_string (peer_of k);
    responder_identity = to_string (peer_of l);
    responder_public_key = encode_protobuf (public l);
    ephemeral_public_key = ephemeral secret;
    route_context = route;
    authentication =
        sign l (transcript lib protocol id route (encode_protobuf (public l)) (ephemeral secret));
  }

  -- The responder's answer passes the initiator's checks.
  pub validate_response-response_of :
      Laws lib
      → (k l : Keypair) (route : RouteBinding PeerId) (protocol : String) (id : SessionId)
        (secret : StaticSecret)
      → validate_response lib
          (response_of k l route protocol id secret)
          id
          (peer_of k)
          (peer_of l)
          route
          protocol
        ≡ ok tt
  unfolding validate_response response_of
  validate_response-response_of laws k l route protocol id secret = simp (
    ==_refl {A = String},
    ==_refl {A = SessionId},
    laws.parse-to_string,
    laws.decode-encode,
    laws.verify-sign,
    peer_refl,
    route_refl,
  )
