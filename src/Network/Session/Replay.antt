-- ===== src/Network/Session/Replay.antt =====
-- `encrypt` and `decrypt` of network/src/session.rs, one call of each.
use real_layer.Base.Bytes.{
  Bytes, to_be_bytes, from_be_bytes, length-to_be_bytes, from_be_bytes-to_be_bytes,
}
use real_layer.Base.{
  ℕ, ◌+◌, ◌<◌, ◌≤◌, ◌≡◌, ◌++◌, Option, none, some, Result, ok, err, arith, length, take, drop,
  length-append, take-append, drop-append,
}
use real_layer.Network.Session.Types.{SecureSession, SessionError, established, decryption_failed}
use real_layer.Network.Session.Primitives.{Primitives, Laws}
use real_layer.Network.Session.Cipher.{encrypt, decrypt, nonce_from_counter, u64_limit}

-- Every counter accepted so far lies below `n`.
abbrev pub ReceivedBelow : ℕ → Option ℕ → Type 0
ReceivedBelow n none = Unit {0}
ReceivedBelow n (some last) = last < n

pub frame_counter :
    (n : ℕ) (c : Bytes) → n < u64_limit → from_be_bytes (take 8 (to_be_bytes 8 n ++ c)) ≡ n
frame_counter n c h =
    rw (take-append 8 (to_be_bytes 8 n) c (omega (arith, length-to_be_bytes 8 n)))
      (from_be_bytes-to_be_bytes 8 n h)

frame_body : (n : ℕ) (c : Bytes) → drop 8 (to_be_bytes 8 n ++ c) ≡ c
frame_body n c = drop-append 8 (to_be_bytes 8 n) c (omega (arith, length-to_be_bytes 8 n))

frame_long : (n : ℕ) (c : Bytes) → 8 ≤ length (to_be_bytes 8 n ++ c)
frame_long n c = omega (arith, length-append (to_be_bytes 8 n) c, length-to_be_bytes 8 n)

module _ (lib : Primitives) where
  open lib use {PeerId, seal, unseal}

  -- Encryption succeeds only with the frame that starts with the counter.
  pub encrypt-ok :
      (s s' : SecureSession PeerId) (plaintext aad frame : Bytes)
      → encrypt lib s plaintext aad ≡ (s', ok frame)
      → (c : Bytes) × (seal s.send_key (nonce_from_counter s.send_nonce) plaintext aad ≡ some c)
        × (frame ≡ to_be_bytes 8 s.send_nonce ++ c)
        × (s' ≡ record s { send_nonce = s.send_nonce + 1 })
        × (s.state ≡ established)
        × (s.send_nonce + 1 < u64_limit)
  unfolding encrypt
  encrypt-ok s s' plaintext aad frame h = ground arith

  -- The receiver's half of a round trip, from a frame of the sender's.
  decrypt-frame :
      (s : SecureSession PeerId) (n : ℕ) (c plaintext aad : Bytes)
      → n < u64_limit
      → s.state ≡ established
      → ReceivedBelow n s.last_received_nonce
      → unseal s.receive_key (nonce_from_counter n) c aad ≡ some plaintext
      → decrypt lib s (to_be_bytes 8 n ++ c) aad
        ≡ (record s { last_received_nonce = some n }, ok plaintext)
  unfolding decrypt
  decrypt-frame s n c plaintext aad bound live below opened =
      ground (arith, frame_counter n c bound, frame_body n c, frame_long n c)

  -- Under the laws of the libraries, what one session encrypts, an established session whose
  -- receive key is the other's send key, and that has accepted only smaller counters, decrypts to
  -- the same plaintext, and it records the counter and changes nothing else.
  pub decrypt-encrypt :
      Laws lib
      → (a a' b : SecureSession PeerId) (plaintext aad frame : Bytes)
      → encrypt lib a plaintext aad ≡ (a', ok frame)
      → b.receive_key ≡ a.send_key
      → b.state ≡ established
      → ReceivedBelow a.send_nonce b.last_received_nonce
      → decrypt lib b frame aad
        ≡ (record b { last_received_nonce = some a.send_nonce }, ok plaintext)
  decrypt-encrypt laws a a' b plaintext aad frame h key live below =
      let (c, sealed, e, _, _, bound) = encrypt-ok a a' plaintext aad frame h in
      rw e (
        decrypt-frame b a.send_nonce c plaintext aad (omega arith) live below
          (rw key (laws.unseal-seal a.send_key _ plaintext aad c sealed)))

  -- What a call of `decrypt` on a frame may do to the session.
  abbrev pub Effect :
      SecureSession PeerId → Bytes → SecureSession PeerId → Result SessionError Bytes → Type 0
  Effect s frame s' (ok plaintext) =
      ReceivedBelow (from_be_bytes (take 8 frame)) s.last_received_nonce
      × (s' ≡ record s { last_received_nonce = some (from_be_bytes (take 8 frame)) })
  Effect s frame s' (err e) = s' ≡ s

  -- A decryption that succeeds accepts a counter above the last accepted one, and changes nothing
  -- but that record; one that fails changes nothing.
  pub decrypt-Effect :
      (s s' : SecureSession PeerId) (frame aad : Bytes) (r : Result SessionError Bytes)
      → decrypt lib s frame aad ≡ (s', r)
      → Effect s frame s' r
  unfolding decrypt
  decrypt-Effect s s' frame aad (ok plaintext) h = ground arith
  decrypt-Effect s s' frame aad (err e) h = ground arith

  -- After a frame was decrypted, no frame with the same or a smaller counter is: a replay fails
  -- whatever the associated data, and leaves the session as it is.
  decrypt_replay :
      (s s' : SecureSession PeerId) (frame replayed aad aad' plaintext : Bytes)
      → decrypt lib s frame aad ≡ (s', ok plaintext)
      → from_be_bytes (take 8 replayed) ≤ from_be_bytes (take 8 frame)
      → decrypt lib s' replayed aad' ≡ (s', err decryption_failed)
  unfolding decrypt
  decrypt_replay s s' frame replayed aad aad' plaintext h le = ground arith
