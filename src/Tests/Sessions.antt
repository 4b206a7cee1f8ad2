-- ===== src/Tests/Sessions.antt =====
-- A handshake between alice and bob, and frames of the session.
use real_layer.Base.Bytes.{Bytes, from_be_bytes, to_be_bytes}
use real_layer.Base.Text.{as_bytes}
use real_layer.Base.{String, ◌≡◌, refl, [], ◌∷◌, some, Result, ok, err, string_eq, list_eq, nat_eq}
use real_layer.Network.Session.Types.{
  SessionId, RouteBinding, HandshakeInit, HandshakeResponse, SecureSession, SessionError, initiator,
  responder, negotiating, duplicate_session, validate_route, contains, state_eq,
}
use real_layer.Network.Session.Validation.{
  derive_session, transcript, validate_init, validate_response, parse_identity, to_wire,
}
use real_layer.Network.Session.Handshake.{
  SessionInitiator, SessionResponder, new_initiator, build_init, complete, new_responder,
  accept_init, admit, respond, is_seen, ensure_state,
}
use real_layer.Network.Session.Cipher.{encrypt, decrypt, is_replay, nonce_from_counter}
use real_layer.Network.Session.Replay.{decrypt-encrypt}
use real_layer.Network.Session.Counters.{
  encrypted, accepted, RisingFrom, floor, encrypted-RisingFrom, accepted-RisingFrom,
}
use real_layer.Network.Session.Agreement.{Agrees, handshake-Agrees}
use real_layer.Network.Session.Authentication.{Authentic, accept_init-Authentic}
use real_layer.Network.Session.Duplicates.{Call, accept, after, accept_init_once}
use real_layer.Network.Session.Answers.{Answered, complete-Answered}
use real_layer.Tests.Instances.{toy, toy-Laws, value_of}

abbrev alice : Bytes
alice = 1 ∷ []

abbrev bob : Bytes
bob = 2 ∷ []

abbrev route : RouteBinding String
route = RouteBinding.two_hop "bob" "carol" "10.0.0.9:4001"

abbrev id : SessionId
id = 7 ∷ 7 ∷ []

abbrev dialer : SessionInitiator toy
dialer = record {
  identity = alice;
  expected_peer = "bob";
  route = route;
  protocol_version = "1";
  session_id = id;
  secret = 3;
  state = negotiating;
}

handshake-Agrees_example :
    Agrees toy dialer (record { identity = bob; seen_sessions = [] }) alice bob "1" 5
handshake-Agrees_example =
    handshake-Agrees toy toy-Laws alice bob route "1" id 3 5 dialer []
      (unfold new_initiator validate_route contains in refl) (unfold is_seen in refl) refl

abbrev blank_init : HandshakeInit String
blank_init = record {
  kind = "";
  protocol_version = "";
  session_id = [];
  initiator_identity = "";
  responder_identity = "";
  initiator_public_key = [];
  ephemeral_public_key = [];
  route_context = route;
  authentication = [];
}

abbrev blank_response : HandshakeResponse String
blank_response = record {
  kind = "";
  protocol_version = "";
  session_id = [];
  initiator_identity = "";
  responder_identity = "";
  responder_public_key = [];
  ephemeral_public_key = [];
  route_context = route;
  authentication = [];
}

abbrev left : SecureSession String
left = derive_session toy id "bob" route initiator (15 ∷ []) "1"

abbrev right : SecureSession String
right = derive_session toy id "alice" route responder (15 ∷ []) "1"

abbrev hello : HandshakeInit String
hello = value_of blank_init (build_init toy dialer)

abbrev listener : SessionResponder toy
listener = new_responder toy bob

abbrev answered :
    SessionResponder toy × Result SessionError (HandshakeResponse String × SecureSession String)
answered = accept_init toy listener hello "alice" "1" 5

abbrev reply : HandshakeResponse String
reply = (value_of (blank_response, left) answered.1).0

answers : accept_init toy listener hello "alice" "1" 5 ≡ (answered.0, ok (reply, right))
unfolding accept_init new_responder build_init admit respond validate_init parse_identity
    validate_route contains is_seen derive_session transcript to_wire ensure_state as_bytes
answers = refl

completes : complete toy dialer reply ≡ ok left
unfolding accept_init new_responder build_init admit respond validate_init parse_identity
    validate_route contains is_seen derive_session transcript to_wire ensure_state as_bytes complete
    validate_response
completes = refl

accept_init-Authentic_example : Authentic toy listener hello "alice" "1" right
accept_init-Authentic_example =
    accept_init-Authentic toy listener answered.0 hello "alice" "1" 5 reply right answers

complete-Answered_example : Answered toy dialer reply left
complete-Answered_example = complete-Answered toy dialer reply left completes

abbrev call : Call toy
call = record { init = hello; transport_peer = "alice"; protocol = "1"; secret = 5 }

abbrev stolen : Call toy
stolen = record {
  init = record blank_init { session_id = hello.session_id };
  transport_peer = "carol";
  protocol = "1";
  secret = 9;
}

abbrev stranger : Call toy
stranger = record { init = blank_init; transport_peer = "carol"; protocol = "1"; secret = 9 }

accept_init_once_example :
    accept toy (after toy answered.0 (stranger ∷ stranger ∷ [])) stolen
    ≡ (after toy answered.0 (stranger ∷ stranger ∷ []), err duplicate_session)
accept_init_once_example =
    accept_init_once toy listener answered.0 call (stranger ∷ stranger ∷ []) stolen (reply, right)
      answers refl

abbrev frame : Bytes
frame = value_of [] (encrypt toy left (104 ∷ 105 ∷ []) (9 ∷ [])).1

encrypts : encrypt toy left (104 ∷ 105 ∷ []) (9 ∷ []) ≡ (record left { send_nonce = 1 }, ok frame)
unfolding encrypt derive_session nonce_from_counter
encrypts = refl

decrypt-encrypt_example :
    decrypt toy right frame (9 ∷ [])
    ≡ (record right { last_received_nonce = some left.send_nonce }, ok (104 ∷ 105 ∷ []))
decrypt-encrypt_example =
    decrypt-encrypt toy toy-Laws left (record left { send_nonce = 1 }) right (104 ∷ 105 ∷ [])
      (9 ∷ []) frame encrypts (unfold derive_session in refl) (unfold derive_session in refl)
      (unfold derive_session in tt)

abbrev heard : SecureSession String
heard = record right { last_received_nonce = some 0 }

decrypts : decrypt toy right frame (9 ∷ []) ≡ (heard, ok (104 ∷ 105 ∷ []))
unfolding encrypt decrypt is_replay derive_session nonce_from_counter to_be_bytes as_bytes
    from_be_bytes
decrypts = refl

encrypted-RisingFrom_example :
    RisingFrom left.send_nonce (encrypted toy left ((1 ∷ [], []) ∷ (1 ∷ [], []) ∷ []))
encrypted-RisingFrom_example = encrypted-RisingFrom toy left ((1 ∷ [], []) ∷ (1 ∷ [], []) ∷ [])

accepted-RisingFrom_example :
    RisingFrom
      (floor right.last_received_nonce)
      (accepted toy right ((frame, 9 ∷ []) ∷ (frame, 9 ∷ []) ∷ []))
accepted-RisingFrom_example = accepted-RisingFrom toy right ((frame, 9 ∷ []) ∷ (frame, 9 ∷ []) ∷ [])
