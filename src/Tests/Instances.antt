-- ===== src/Tests/Instances.antt =====
-- Small libraries for the tests: cryptography that keeps nothing secret but satisfies the laws, and an
-- encoding of headers and messages.
use text.Mathlib.TextEquality.{eq_iff}
use real_layer.Base.Bytes.{Bytes}
use real_layer.Base.Text.{as_bytes}
use real_layer.Base.{
  ℕ, zero, suc, String, ◌+◌, ◌*◌, ◌≡◌, refl, [], ◌∷◌, ◌++◌, Option, none, some, Result, ok, err,
  arith, ◌==◌, ==_refl, nat_eq, string_eq, list_eq, length, replicate, take, if◌then◌else◌,
}
use real_layer.Network.Session.Types.{WireRouteBinding}
use real_layer.Network.Session.Primitives.{Primitives, Laws}
use real_layer.Network.Channel.Types.{ChannelMessage, MessageType, FrameHeader, Codec, CodecLaws}

-- A public key names its peer.
abbrev peer_name : Bytes → String
peer_name key = if key == 1 ∷ [] then "alice" else if key == 2 ∷ [] then "bob" else "carol"

abbrev multiply : ℕ → Bytes → Bytes
multiply s [] = 0 ∷ []
multiply s (t ∷ ts) = s * t ∷ []

abbrev tag : (key nonce aad : Bytes) → ℕ
tag key nonce aad = length key + length nonce + length aad

abbrev unseal_tagged : (key nonce ciphertext aad : Bytes) → Option Bytes
unseal_tagged key nonce [] aad = none
unseal_tagged key nonce (t ∷ msg) aad = if t == tag key nonce aad then some msg else none

abbrev route_bytes : WireRouteBinding → Bytes
route_bytes (WireRouteBinding.one_hop relay) = 1 ∷ as_bytes relay
route_bytes (WireRouteBinding.two_hop entry exit address) =
    2 ∷ as_bytes entry ++ (as_bytes exit ++ as_bytes address)

abbrev pub toy : Primitives
toy = record {
  PeerId = String;
  peer_eq = string_eq;
  to_string = λ p. p;
  parse = λ text. some text;
  Keypair = Bytes;
  PublicKey = Bytes;
  public = λ k. k;
  to_peer_id = peer_name;
  encode_protobuf = λ k. k;
  try_decode_protobuf = λ bs. some bs;
  sign = λ k m. k ++ m;
  verify = λ k m signature. signature == k ++ m;
  StaticSecret = ℕ;
  ephemeral = λ s. s ∷ [];
  diffie_hellman = multiply;
  sha256 = λ m. length m ∷ [];
  hkdf = λ salt shared info len. take len (salt ++ (shared ++ (info ++ replicate len 7)));
  seal = λ key nonce msg aad. some (tag key nonce aad ∷ msg);
  unseal = unseal_tagged;
  route_json = route_bytes;
}

pub toy-Laws : Laws toy
toy-Laws = record {
  parse-to_string = λ p. refl;
  decode-encode = λ k. refl;
  verify-sign = λ k m. ==_refl {A = Bytes} (k ++ m);
  diffie_hellman_comm = λ (s t : ℕ). ground arith;
  unseal-seal = λ key nonce msg aad c h. ground arith;
}

abbrev type_code : MessageType → ℕ
type_code MessageType.ping = 0
type_code MessageType.pong = 1
type_code MessageType.session_data = 2
type_code MessageType.data_plane = 3
type_code MessageType.close = 4

abbrev type_at : ℕ → MessageType
type_at zero = MessageType.ping
type_at (suc zero) = MessageType.pong
type_at (suc (suc zero)) = MessageType.session_data
type_at (suc (suc (suc zero))) = MessageType.data_plane
type_at (suc (suc (suc (suc n)))) = MessageType.close

type_at-type_code : (t : MessageType) → type_at (type_code t) ≡ t
type_at-type_code MessageType.ping = refl
type_at-type_code MessageType.pong = refl
type_at-type_code MessageType.session_data = refl
type_at-type_code MessageType.data_plane = refl
type_at-type_code MessageType.close = refl

-- Headers of version "1" only.
abbrev header_bytes : FrameHeader → Option Bytes
header_bytes h =
    if h.protocol_version == "1"
    then some (type_code h.message_type ∷ h.sequence_number ∷ h.ciphertext_length ∷ h.session_id)
    else none

abbrev header_from : Bytes → Option FrameHeader
header_from (t ∷ sequence ∷ len ∷ id) = some (record {
  protocol_version = "1";
  session_id = id;
  message_type = type_at t;
  sequence_number = sequence;
  ciphertext_length = len;
})
header_from bs = none

abbrev message_bytes : ChannelMessage → Bytes
message_bytes ChannelMessage.ping = 0 ∷ []
message_bytes ChannelMessage.pong = 1 ∷ []
message_bytes (ChannelMessage.session_data bytes) = 2 ∷ bytes
message_bytes (ChannelMessage.data_plane bytes) = 3 ∷ bytes
message_bytes ChannelMessage.close = 4 ∷ []

abbrev message_from : Bytes → Option ChannelMessage
message_from [] = none
message_from (zero ∷ bytes) = some ChannelMessage.ping
message_from (suc zero ∷ bytes) = some ChannelMessage.pong
message_from (suc (suc zero) ∷ bytes) = some (ChannelMessage.session_data bytes)
message_from (suc (suc (suc zero)) ∷ bytes) = some (ChannelMessage.data_plane bytes)
message_from (suc (suc (suc (suc n))) ∷ bytes) = some ChannelMessage.close

abbrev pub toy_json : Codec
toy_json = record {
  header_json = header_bytes;
  header_parse = header_from;
  message_json = λ m. some (message_bytes m);
  message_parse = message_from;
}

message_from-message_bytes : (m : ChannelMessage) → message_from (message_bytes m) ≡ some m
message_from-message_bytes ChannelMessage.ping = refl
message_from-message_bytes ChannelMessage.pong = refl
message_from-message_bytes (ChannelMessage.session_data bytes) = refl
message_from-message_bytes (ChannelMessage.data_plane bytes) = refl
message_from-message_bytes ChannelMessage.close = refl

header_from-header_bytes :
    (h : FrameHeader) (bs : Bytes) → header_bytes h ≡ some bs → header_from bs ≡ some h
header_from-header_bytes h bs e =
    ground (arith, eq_iff h.protocol_version "1", type_at-type_code h.message_type)

pub toy_json-CodecLaws : CodecLaws toy_json
toy_json-CodecLaws = record {
  header = header_from-header_bytes;
  header_empty = refl;
  message = λ m bs h. ground (arith, message_from-message_bytes m);
}

-- The value of a successful result.
abbrev pub value_of {ℓ κ} : {E : Type ℓ} {A : Type κ} → A → Result E A → A
value_of other (ok a) = a
value_of other (err e) = other
