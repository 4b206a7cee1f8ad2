-- ===== src/Network/Session/Types.antt =====
-- The data of network/src/session.rs. `P` is libp2p's `PeerId`. Fixed-size byte arrays are byte
-- strings.
use text.Mathlib.TextEquality.{eq_iff}
use real_layer.Base.Bytes.{Bytes}
use real_layer.Base.{
  ℕ, String, Bool, true, false, ◌&&◌, ◌||◌, ◌≡◌, ◌↔◌, Option, Result, ok, err, Eq, ◌==◌, string_eq,
  arith, if◌then◌else◌,
}

abbrev pub SessionId : Type 0
SessionId = Bytes

pub data SessionRole : Type 0 where
  initiator responder : SessionRole

pub data SessionState : Type 0 where
  negotiating established failed closed : SessionState

pub data SessionError : Type 0 where
  unsupported_protocol : (expected actual : String) → SessionError
  invalid_identity : String → SessionError
  identity_mismatch : (expected actual : String) → SessionError
  invalid_route : String → SessionError
  invalid_key_material authentication_failed duplicate_session session_id_mismatch : SessionError
  invalid_state : SessionState → (operation : String) → SessionError
  encryption_failed decryption_failed : SessionError

pub data RouteBinding (P : Type 0) : Type 0 where
  one_hop : (relay : P) → RouteBinding P
  two_hop : (entry exit : P) → (exit_address : String) → RouteBinding P

-- What a route is serialized through.
pub data WireRouteBinding : Type 0 where
  one_hop : (relay : String) → WireRouteBinding
  two_hop : (entry exit exit_address : String) → WireRouteBinding

pub record HandshakeInit (P : Type 0) : Type 0 where
  pub kind : String
  pub protocol_version : String
  pub session_id : SessionId
  pub initiator_identity : String
  pub responder_identity : String
  pub initiator_public_key : Bytes
  pub ephemeral_public_key : Bytes
  pub route_context : RouteBinding P
  pub authentication : Bytes

pub record HandshakeResponse (P : Type 0) : Type 0 where
  pub kind : String
  pub protocol_version : String
  pub session_id : SessionId
  pub initiator_identity : String
  pub responder_identity : String
  pub responder_public_key : Bytes
  pub ephemeral_public_key : Bytes
  pub route_context : RouteBinding P
  pub authentication : Bytes

pub record SecureSession (P : Type 0) : Type 0 where
  pub session_id : SessionId
  pub peer_id : P
  pub route : RouteBinding P
  pub role : SessionRole
  pub state : SessionState
  pub send_key : Bytes
  pub receive_key : Bytes
  pub send_nonce : ℕ
  pub last_received_nonce : Option ℕ

abbrev pub state_beq : SessionState → SessionState → Bool
state_beq negotiating negotiating = true
state_beq established established = true
state_beq failed failed = true
state_beq closed closed = true
state_beq s t = false

pub state_beq_iff : (s t : SessionState) → (state_beq s t ≡ true) ↔ (s ≡ t)
state_beq_iff s t = ground arith

instance abbrev pub state_eq : Eq SessionState
state_eq = record { beq = state_beq; beq_iff = state_beq_iff }

module _ {P : Type 0} ⦃e : Eq P⦄ where
  abbrev pub route_beq : RouteBinding P → RouteBinding P → Bool
  route_beq (RouteBinding.one_hop r) (RouteBinding.one_hop r') = r == r'
  route_beq (RouteBinding.two_hop n x a) (RouteBinding.two_hop n' x' a') =
      n == n' && x == x' && a == a'
  route_beq r r' = false

  pub route_beq_iff : (r r' : RouteBinding P) → (route_beq r r' ≡ true) ↔ (r ≡ r')
  route_beq_iff (RouteBinding.one_hop r) (RouteBinding.one_hop r') = ground (arith, e.beq_iff r r')
  route_beq_iff (RouteBinding.two_hop n x a) (RouteBinding.two_hop n' x' a') =
      ground (arith, e.beq_iff n n', e.beq_iff x x', eq_iff a a')
  route_beq_iff (RouteBinding.one_hop r) (RouteBinding.two_hop n x a) = ground arith
  route_beq_iff (RouteBinding.two_hop n x a) (RouteBinding.one_hop r) = ground arith

  instance abbrev pub route_eq : Eq (RouteBinding P)
  route_eq = record { beq = route_beq; beq_iff = route_beq_iff }

  -- `RouteBinding::peers` and `contains`.
  unfoldable pub contains : RouteBinding P → P → Bool
  contains (RouteBinding.one_hop relay) peer = peer == relay
  contains (RouteBinding.two_hop entry exit a) peer = peer == entry || peer == exit

  -- `RouteBinding::validate`.
  unfoldable pub validate_route : RouteBinding P → Result SessionError (Unit {0})
  validate_route (RouteBinding.one_hop relay) = ok tt
  validate_route (RouteBinding.two_hop entry exit a) =
      if entry == exit then err (invalid_route "entry and exit must differ") else ok tt
