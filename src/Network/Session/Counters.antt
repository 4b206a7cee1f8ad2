-- ===== src/Network/Session/Counters.antt =====
-- Runs of `encrypt` and of `decrypt` of network/src/session.rs, and the counters of their frames.
use real_layer.Base.Bytes.{Bytes, from_be_bytes}
use real_layer.Base.{
  ℕ, suc, ◌≤◌, ◌≡◌, refl, List, [], ◌∷◌, Option, none, some, Result, ok, err, arith, take,
}
use real_layer.Network.Session.Types.{SecureSession, SessionError}
use real_layer.Network.Session.Primitives.{Primitives}
use real_layer.Network.Session.Cipher.{encrypt, decrypt}
use real_layer.Network.Session.Replay.{encrypt-ok, decrypt-Effect, frame_counter}

abbrev pub counter : Bytes → ℕ
counter frame = from_be_bytes (take 8 frame)

-- The counters rise strictly, from `n` or more.
abbrev pub RisingFrom : ℕ → List Bytes → Type 0
RisingFrom n [] = Unit {0}
RisingFrom n (frame ∷ frames) = (n ≤ counter frame) × RisingFrom (suc (counter frame)) frames

abbrev collect : Result SessionError Bytes → List Bytes → List Bytes
collect (ok frame) frames = frame ∷ frames
collect (err e) frames = frames

abbrev if_ok : Result SessionError Bytes → Bytes → List Bytes → List Bytes
if_ok (ok plaintext) frame frames = frame ∷ frames
if_ok (err e) frame frames = frames

-- The first counter that a session still accepts.
abbrev pub floor : Option ℕ → ℕ
floor none = 0
floor (some last) = suc last

module _ (lib : Primitives) where
  open lib use {PeerId}

  -- The frames of a run of `encrypt` over pairs of a plaintext and its associated data, failed calls
  -- left out.
  unfoldable pub encrypted : SecureSession PeerId → List (Bytes × Bytes) → List Bytes
  encrypted s [] = []
  encrypted s ((plaintext, aad) ∷ calls) =
      let (s', r) = encrypt lib s plaintext aad in collect r (encrypted s' calls)

  -- The frames that a run of `decrypt` accepts.
  unfoldable pub accepted : SecureSession PeerId → List (Bytes × Bytes) → List Bytes
  accepted s [] = []
  accepted s ((frame, aad) ∷ calls) =
      let (s', r) = decrypt lib s frame aad in if_ok r frame (accepted s' calls)

  weaken : (m n : ℕ) (frames : List Bytes) → m ≤ n → RisingFrom n frames → RisingFrom m frames
  weaken m n [] h r = tt
  weaken m n (f ∷ fs) h r = (omega arith, r.1)

  encrypt_nonce :
      (s : SecureSession PeerId) (plaintext aad : Bytes)
      → s.send_nonce ≤ (encrypt lib s plaintext aad).0.send_nonce
  unfolding encrypt
  encrypt_nonce s plaintext aad = ground arith

  encrypted-step :
      (s s' : SecureSession PeerId) (r : Result SessionError Bytes) (plaintext aad : Bytes)
      (frames : List Bytes)
      → encrypt lib s plaintext aad ≡ (s', r)
      → RisingFrom s'.send_nonce frames
      → RisingFrom s.send_nonce (collect r frames)
  encrypted-step s s' (ok frame) plaintext aad frames h rising =
      let (c, _, e, e', _, bound) = encrypt-ok lib s s' plaintext aad frame h in
      ground (arith, frame_counter s.send_nonce c)
  encrypted-step s s' (err e) plaintext aad frames h rising =
      weaken s.send_nonce s'.send_nonce frames (ground (arith, encrypt_nonce s plaintext aad))
        rising

  -- No counter is used for two frames: over any run of calls the counters of the frames rise
  -- strictly, from the session's send counter.
  pub encrypted-RisingFrom :
      (s : SecureSession PeerId) (calls : List (Bytes × Bytes))
      → RisingFrom s.send_nonce (encrypted s calls)
  unfolding encrypted
  encrypted-RisingFrom s [] = tt
  encrypted-RisingFrom s ((plaintext, aad) ∷ calls) =
      encrypted-step s (encrypt lib s plaintext aad).0 (encrypt lib s plaintext aad).1 plaintext aad
        (encrypted (encrypt lib s plaintext aad).0 calls) refl
        (encrypted-RisingFrom (encrypt lib s plaintext aad).0 calls)

  accepted-step :
      (s s' : SecureSession PeerId) (r : Result SessionError Bytes) (frame aad : Bytes)
      (frames : List Bytes)
      → decrypt lib s frame aad ≡ (s', r)
      → RisingFrom (floor s'.last_received_nonce) frames
      → RisingFrom (floor s.last_received_nonce) (if_ok r frame frames)
  accepted-step s s' (ok plaintext) frame aad frames h rising =
      let (below, e) = decrypt-Effect lib s s' frame aad (ok plaintext) h in ground arith
  accepted-step s s' (err x) frame aad frames h rising =
      let e = decrypt-Effect lib s s' frame aad (err x) h in ground arith

  -- However frames are delivered, repeated and reordered, those that a session accepts have counters
  -- that rise strictly: no frame is accepted twice.
  pub accepted-RisingFrom :
      (s : SecureSession PeerId) (calls : List (Bytes × Bytes))
      → RisingFrom (floor s.last_received_nonce) (accepted s calls)
  unfolding accepted
  accepted-RisingFrom s [] = tt
  accepted-RisingFrom s ((frame, aad) ∷ calls) =
      accepted-step s (decrypt lib s frame aad).0 (decrypt lib s frame aad).1 frame aad
        (accepted (decrypt lib s frame aad).0 calls) refl
        (accepted-RisingFrom (decrypt lib s frame aad).0 calls)
