-- ===== src/Network/Session/Agreement.antt =====
-- A handshake of network/src/session.rs between two honest peers.
use real_layer.Base.Bytes.{Bytes}
use real_layer.Base.{String, List, ◌≡◌, refl, true, false, ok, Eq, string_eq, list_eq}
use real_layer.Network.Session.Types.{
  SessionId, responder, initiator, negotiating, RouteBinding, HandshakeInit, HandshakeResponse,
  SecureSession, state_eq, contains, validate_route, route_eq, established,
}
use real_layer.Network.Session.Primitives.{Primitives, Laws}
use real_layer.Network.Session.Validation.{derive_session}
use real_layer.Network.Session.Handshake.{
  SessionInitiator, SessionResponder, new_initiator, build_init, complete, is_zero, is_seen, admit,
  respond, accept_init,
}
use real_layer.Network.Session.Messages.{
  peer_of, new_initiator-ok, init_of, validate_init-init_of, response_of,
  validate_response-response_of,
}

module _ (lib : Primitives) where
  open lib use {
    PeerId, Keypair, public, to_peer_id, StaticSecret, ephemeral, diffie_hellman, to_string,
    encode_protobuf, sign,
  }

  instance abbrev peers : Eq PeerId
  peers = lib.peer_eq

  -- Two ends of one session: each sends under the key with which the other receives.
  pub record Fit (a b : SecureSession PeerId) : Type 0 where
    pub same_id : a.session_id ≡ b.session_id
    pub same_route : a.route ≡ b.route
    pub forth : a.send_key ≡ b.receive_key
    pub back : a.receive_key ≡ b.send_key
    pub both : (a.state ≡ established) × (b.state ≡ established)

  -- A handshake that ends with a session on each side.
  pub record Agrees (i : SessionInitiator lib) (r : SessionResponder lib) (k l : Keypair)
      (protocol : String) (secret : StaticSecret) : Type 0 where
    pub init : HandshakeInit PeerId
    pub response : HandshakeResponse PeerId
    pub left : SecureSession PeerId
    pub right : SecureSession PeerId
    pub built : build_init lib i ≡ ok init
    pub accepted : (accept_init lib r init (peer_of lib k) protocol secret).1 ≡ ok (response, right)
    pub completed : complete lib i response ≡ ok left
    pub fit : Fit left right
    pub named : (left.peer_id ≡ peer_of lib l) × (right.peer_id ≡ peer_of lib k)

  module _ (laws : Laws lib) (k l : Keypair) (route : RouteBinding PeerId) (protocol : String)
      (id : SessionId) (secret_i secret_r : StaticSecret)
      (fresh_secret : is_zero lib (diffie_hellman secret_i (ephemeral secret_r)) ≡ false) where
    abbrev shared : Bytes
    shared = diffie_hellman secret_i (ephemeral secret_r)

    respond-init_of :
        (seen : List SessionId)
        → respond lib
            (record { identity = l; seen_sessions = seen })
            (init_of lib k (peer_of lib l) route protocol id secret_i)
            (peer_of lib k)
            protocol
            secret_r
          ≡ ok (
            response_of lib k l route protocol id secret_r,
            derive_session lib id (peer_of lib k) route responder shared protocol,
          )
    unfolding respond init_of response_of
    respond-init_of seen = rw (laws.diffie_hellman_comm secret_r secret_i, fresh_secret)

    admit-init_of :
        (seen : List SessionId)
        → validate_route route ≡ ok tt
        → contains route (peer_of lib l) ≡ true
        → is_seen lib id seen ≡ false
        → admit lib
            (record { identity = l; seen_sessions = seen })
            (init_of lib k (peer_of lib l) route protocol id secret_i)
            (peer_of lib k)
            protocol
          ≡ ok tt
    unfolding admit init_of
    admit-init_of seen valid inside unseen =
        rw (unseen, validate_init-init_of lib laws k l route protocol id secret_i valid, inside)

    accept_init-init_of :
        (seen : List SessionId)
        → validate_route route ≡ ok tt
        → contains route (peer_of lib l) ≡ true
        → is_seen lib id seen ≡ false
        → (accept_init lib
            (record { identity = l; seen_sessions = seen })
            (init_of lib k (peer_of lib l) route protocol id secret_i)
            (peer_of lib k)
            protocol
            secret_r).1
          ≡ ok (
            response_of lib k l route protocol id secret_r,
            derive_session lib id (peer_of lib k) route responder shared protocol,
          )
    unfolding accept_init
    accept_init-init_of seen valid inside unseen =
        rw (admit-init_of seen valid inside unseen, accept_init) (respond-init_of seen)

    complete-response_of :
        complete lib
          (record {
            identity = k;
            expected_peer = peer_of lib l;
            route = route;
            protocol_version = protocol;
            session_id = id;
            secret = secret_i;
            state = negotiating;
          })
          (response_of lib k l route protocol id secret_r)
        ≡ ok (derive_session lib id (peer_of lib l) route initiator shared protocol)
    unfolding complete response_of
    complete-response_of =
        rw (validate_response-response_of lib laws k l route protocol id secret_r, fresh_secret)

  -- Under the laws of the libraries, an initiator for a peer and a responder that is that peer,
  -- with a session id that the responder has not seen, agree, unless the key exchange gives the
  -- zero secret: the responder accepts the initiator's message, the initiator accepts the answer,
  -- each session names the other peer, and each sends under the key with which the other
  -- receives.
  pub handshake-Agrees :
      Laws lib
      → (k l : Keypair) (route : RouteBinding PeerId) (protocol : String) (id : SessionId)
        (secret_i secret_r : StaticSecret) (i : SessionInitiator lib) (seen : List SessionId)
      → new_initiator lib k (peer_of lib l) route protocol id secret_i ≡ ok i
      → is_seen lib id seen ≡ false
      → is_zero lib (diffie_hellman secret_i (ephemeral secret_r)) ≡ false
      → Agrees i (record { identity = l; seen_sessions = seen }) k l protocol secret_r
  handshake-Agrees laws k l route protocol id secret_i secret_r i seen made unseen fresh =
      let (e, valid, inside) =
        new_initiator-ok lib k (peer_of lib l) route protocol id secret_i i made in
      record {
        init = init_of lib k (peer_of lib l) route protocol id secret_i;
        response = response_of lib k l route protocol id secret_r;
        left =
            derive_session lib id (peer_of lib l) route initiator
              (diffie_hellman secret_i (ephemeral secret_r)) protocol;
        right =
            derive_session lib id (peer_of lib k) route responder
              (diffie_hellman secret_i (ephemeral secret_r)) protocol;
        built = rw e (unfold build_init init_of in refl);
        accepted =
            accept_init-init_of laws k l route protocol id secret_i secret_r fresh seen valid inside
              unseen;
        completed = rw e (complete-response_of laws k l route protocol id secret_i secret_r fresh);
        fit =
            unfold derive_session in
            record {
              same_id = refl;
              same_route = refl;
              forth = refl;
              back = refl;
              both = (refl, refl);
            };
        named = unfold derive_session in (refl, refl);
      }
