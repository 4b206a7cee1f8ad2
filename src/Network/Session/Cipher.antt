-- ===== src/Network/Session/Cipher.antt =====
-- `SecureSession` of network/src/session.rs: `close`, `encrypt`, `decrypt`. A method with
-- `&mut self` returns the session after the call beside its result.
use real_layer.Base.Bytes.{Bytes, to_be_bytes, from_be_bytes}
use real_layer.Base.{
  ℕ, ◌+◌, ◌^◌, Bool, false, ◌++◌, Option, none, some, Result, ok, err, ltb, leb, ◌==◌, length, take,
  drop, replicate, if◌then◌else◌,
}
use real_layer.Network.Session.Types.{
  SecureSession, SessionError, established, closed, invalid_state, encryption_failed,
  decryption_failed, state_eq,
}
use real_layer.Network.Session.Primitives.{Primitives}

abbrev pub u64_limit : ℕ
u64_limit = 2 ^ 64

unfoldable pub nonce_from_counter : ℕ → Bytes
nonce_from_counter counter = replicate 4 0 ++ to_be_bytes 8 counter

-- `last_received_nonce.is_some_and(|last| counter <= last)`
unfoldable pub is_replay : Option ℕ → ℕ → Bool
is_replay none counter = false
is_replay (some last) counter = leb counter last

module _ (lib : Primitives) where
  open lib use {PeerId, seal, unseal}

  unfoldable pub close :
      SecureSession PeerId → SecureSession PeerId × Result SessionError (Unit {0})
  close s =
      if s.state == established
      then (record s { state = closed }, ok tt)
      else (s, err (invalid_state s.state "close"))

  -- The counter is advanced before the cipher is called.
  unfoldable pub encrypt :
      SecureSession PeerId
      → (plaintext associated_data : Bytes) → SecureSession PeerId × Result SessionError Bytes
  encrypt s plaintext associated_data =
      if s.state == established
      then (if ltb (s.send_nonce + 1) u64_limit
          then (let s' : SecureSession PeerId = record s { send_nonce = s.send_nonce + 1 } in
              elim (seal s.send_key (nonce_from_counter s.send_nonce) plaintext associated_data) [
                | none ↦ (s', err encryption_failed)
                | some ciphertext ↦ (s', ok (to_be_bytes 8 s.send_nonce ++ ciphertext))
              ])
          else (s, err encryption_failed))
      else (s, err (invalid_state s.state "encrypt"))

  unfoldable pub decrypt :
      SecureSession PeerId
      → (ciphertext associated_data : Bytes) → SecureSession PeerId × Result SessionError Bytes
  unfolding is_replay
  decrypt s ciphertext associated_data =
      if s.state == established
      then (if ltb (length ciphertext) 8
          then (s, err decryption_failed)
          else (let counter = from_be_bytes (take 8 ciphertext) in
              if is_replay s.last_received_nonce counter
              then (s, err decryption_failed)
              else elim (unseal s.receive_key (nonce_from_counter counter) (drop 8 ciphertext)
                  associated_data) [
                    | none ↦ (s, err decryption_failed)
                    | some plaintext ↦
                        (record s { last_received_nonce = some counter }, ok plaintext)
                  ]))
      else (s, err (invalid_state s.state "decrypt"))
