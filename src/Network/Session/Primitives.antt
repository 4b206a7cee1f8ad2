-- ===== src/Network/Session/Primitives.antt =====
-- The libraries that network/src/session.rs calls, as one parameter: libp2p's identities, x25519,
-- HKDF over SHA-256, ChaCha20-Poly1305 and serde_json. `Primitives` has the functions; `Laws` has
-- what their documentation promises.
use real_layer.Base.Bytes.{Bytes}
use real_layer.Base.{ℕ, String, Bool, true, ◌≡◌, Option, some, Eq}
use real_layer.Network.Session.Types.{WireRouteBinding}

pub record Primitives : Type 1 where
  -- libp2p::PeerId, with `to_string` and `parse`
  pub PeerId : Type 0
  pub peer_eq : Eq PeerId
  pub to_string : PeerId → String
  pub parse : String → Option PeerId
  -- libp2p::identity
  pub Keypair : Type 0
  pub PublicKey : Type 0
  pub public : Keypair → PublicKey
  pub to_peer_id : PublicKey → PeerId
  pub encode_protobuf : PublicKey → Bytes
  pub try_decode_protobuf : Bytes → Option PublicKey
  pub sign : Keypair → Bytes → Bytes
  pub verify : PublicKey → (message signature : Bytes) → Bool
  -- x25519_dalek
  pub StaticSecret : Type 0
  pub ephemeral : StaticSecret → Bytes
  pub diffie_hellman : StaticSecret → Bytes → Bytes
  -- sha2, hkdf: `Hkdf::new(Some(salt), shared).expand(info, len)`
  pub sha256 : Bytes → Bytes
  pub hkdf : (salt shared info : Bytes) → (len : ℕ) → Bytes
  -- chacha20poly1305
  pub seal : (key nonce msg aad : Bytes) → Option Bytes
  pub unseal : (key nonce ciphertext aad : Bytes) → Option Bytes
  -- serde_json::to_vec on routes
  pub route_json : WireRouteBinding → Bytes

-- What the code relies on: what one side encodes, signs or seals, the other decodes, verifies and
-- opens, and both sides of a key exchange have the same secret.
pub record Laws (lib : Primitives) : Type 0 where
  pub parse-to_string : (p : lib.PeerId) → lib.parse (lib.to_string p) ≡ some p
  pub decode-encode : (k : lib.PublicKey) → lib.try_decode_protobuf (lib.encode_protobuf k) ≡ some k
  pub verify-sign :
      (k : lib.Keypair) (m : Bytes) → lib.verify (lib.public k) m (lib.sign k m) ≡ true
  pub diffie_hellman_comm :
      (s t : lib.StaticSecret)
      → lib.diffie_hellman s (lib.ephemeral t) ≡ lib.diffie_hellman t (lib.ephemeral s)
  pub unseal-seal :
      (key nonce msg aad c : Bytes)
      → lib.seal key nonce msg aad ≡ some c
      → lib.unseal key nonce c aad ≡ some msg
