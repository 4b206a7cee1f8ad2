-- ===== src/Network/Session/Validation.antt =====
-- The checks of network/src/session.rs on handshake messages (`validate_init`, `validate_response`),
-- the transcript that is signed and the key derivation (`derive_session`).
use real_layer.Base.Bytes.{Bytes}
use real_layer.Base.Text.{as_bytes}
use real_layer.Base.{
  String, ◌++◌, none, Result, ◌>>=◌, ◌>>◌, ensure, ok_or, Eq, ◌==◌, nat_eq, string_eq, list_eq,
  take, drop,
}
use real_layer.Network.Session.Types.{
  SessionId, SessionRole, initiator, responder, established, SessionError, unsupported_protocol,
  invalid_identity, identity_mismatch, invalid_route, invalid_key_material, authentication_failed,
  session_id_mismatch, RouteBinding, WireRouteBinding, HandshakeInit, HandshakeResponse,
  SecureSession, state_eq, route_eq, validate_route,
}
use real_layer.Network.Session.Primitives.{Primitives}

abbrev pub session_protocol : Bytes
session_protocol = as_bytes "ghost-layer/session/1"

abbrev pub key_info : Bytes
key_info = as_bytes "ghost-layer directional session keys"

module _ (lib : Primitives) where
  open lib use {
    PeerId, to_string, parse, Keypair, PublicKey, public, to_peer_id, encode_protobuf,
    try_decode_protobuf, sign, verify, StaticSecret, ephemeral, diffie_hellman, sha256, hkdf,
    route_json,
  }

  instance abbrev pub peers : Eq PeerId
  peers = lib.peer_eq

  -- `impl Serialize for RouteBinding`
  unfoldable pub to_wire : RouteBinding PeerId → WireRouteBinding
  to_wire (RouteBinding.one_hop relay) = WireRouteBinding.one_hop (to_string relay)
  to_wire (RouteBinding.two_hop entry exit exit_address) =
      WireRouteBinding.two_hop (to_string entry) (to_string exit) exit_address

  unfoldable pub transcript :
      (protocol : String)
      → SessionId
      → RouteBinding PeerId
      → (public_key ephemeral_key : Bytes) → Bytes
  transcript protocol session_id route public_key ephemeral_key =
      session_protocol
      ++ (as_bytes protocol
          ++ (session_id ++ (route_json (to_wire route) ++ (public_key ++ ephemeral_key))))

  -- `identity_text.parse::<PeerId>().map_err(|_| InvalidIdentity(identity_text))`
  unfoldable pub parse_identity : String → Result SessionError PeerId
  parse_identity text = ok_or (parse text) (invalid_identity text)

  unfoldable pub validate_init :
      HandshakeInit PeerId
      → (transport_peer responder_peer : PeerId) → (expected_route : RouteBinding PeerId)
      → (protocol : String) → Result SessionError (Unit {0})
  unfolding parse_identity
  validate_init init transport_peer responder_peer expected_route protocol = do
    validate_route expected_route
    ensure (init.protocol_version == protocol) (unsupported_protocol protocol init.protocol_version)
    named_responder ← parse_identity init.responder_identity
    ensure (named_responder == responder_peer)
        (identity_mismatch (to_string responder_peer) (to_string named_responder))
    ensure (init.route_context == expected_route) (invalid_route "route context mismatch")
    key ← ok_or (try_decode_protobuf init.initiator_public_key) invalid_key_material
    let actual = to_peer_id key
    named_initiator ← parse_identity init.initiator_identity
    ensure (named_initiator == actual) (identity_mismatch (to_string actual) (to_string actual))
    ensure (actual == transport_peer)
        (identity_mismatch (to_string transport_peer) (to_string actual))
    ensure
        (verify key
          (transcript protocol init.session_id expected_route init.initiator_public_key
            init.ephemeral_public_key)
          init.authentication)
        authentication_failed

  unfoldable pub validate_response :
      HandshakeResponse PeerId
      → SessionId
      → (initiator_peer expected_peer : PeerId) → (route : RouteBinding PeerId)
      → (protocol : String) → Result SessionError (Unit {0})
  unfolding parse_identity
  validate_response response session_id initiator_peer expected_peer route protocol = do
    ensure (response.protocol_version == protocol)
        (unsupported_protocol protocol response.protocol_version)
    ensure (response.session_id == session_id) session_id_mismatch
    ensure (response.route_context == route) (invalid_route "route context mismatch")
    key ← ok_or (try_decode_protobuf response.responder_public_key) invalid_key_material
    let actual = to_peer_id key
    ensure (actual == expected_peer)
        (identity_mismatch (to_string expected_peer) (to_string actual))
    named_initiator ← parse_identity response.initiator_identity
    ensure (named_initiator == initiator_peer)
        (identity_mismatch (to_string initiator_peer) (to_string named_initiator))
    ensure
        (verify key
          (transcript protocol session_id route response.responder_public_key
            response.ephemeral_public_key)
          response.authentication)
        authentication_failed

  -- The output of HKDF, 64 bytes, is split between the two directions.
  unfoldable pub derive_session :
      SessionId
      → PeerId
      → RouteBinding PeerId
      → SessionRole
      → (shared : Bytes) → (protocol : String) → SecureSession PeerId
  derive_session session_id peer_id route role shared protocol =
      let salt =
        sha256
          (session_protocol ++ (as_bytes protocol ++ (route_json (to_wire route) ++ session_id))) in
      let okm = hkdf salt shared key_info 64 in
      let first = take 32 okm in
      let second = drop 32 okm in
      record {
        session_id = session_id;
        peer_id = peer_id;
        route = route;
        role = role;
        state = established;
        send_key = elim role [ initiator ↦ first | responder ↦ second ];
        receive_key = elim role [ initiator ↦ second | responder ↦ first ];
        send_nonce = 0;
        last_received_nonce = none;
      }
