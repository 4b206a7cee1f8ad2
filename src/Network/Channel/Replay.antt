-- ===== src/Network/Channel/Replay.antt =====
-- `EncryptedChannel::receive` of network/src/channel.rs, on any frame.
use real_layer.Base.Bytes.{Bytes}
use real_layer.Base.{
  ◌+◌, ◌≡◌, ◌≢◌, ◌∙◌, Result, ok, err, arith, Result-cases, Option-cases, inl, inr,
}
use real_layer.Network.Session.Types.{SecureSession, SessionError}
use real_layer.Network.Session.Primitives.{Primitives}
use real_layer.Network.Session.Cipher.{decrypt}
use real_layer.Network.Channel.Types.{
  ChannelMessage, ChannelError, replay_detected, EncryptedChannel, Codec, FrameHeader, established,
  channel_state_beq_iff,
}
use real_layer.Network.Channel.Receiving.{receive, receive_body, read_frame, deliver}

module _ (lib : Primitives) (json : Codec) where
  open lib use {PeerId}

  -- A result of `receive` and the channel after it.
  abbrev pub Received :
      EncryptedChannel PeerId
      → EncryptedChannel PeerId
      → Result ChannelError ChannelMessage
      → Type 0
  Received b b' (ok message) =
      (b.state ≡ established)
      × (b'.receive_sequence ≡ b.receive_sequence + 1)
      × (message ≢ ChannelMessage.close → b'.state ≡ established)
  Received b b' (err e) = (b'.receive_sequence ≡ b.receive_sequence) × (b'.state ≡ b.state)

  -- The part of a receiver that no frame changes.
  record Same (b b' : EncryptedChannel PeerId) : Type 0 where
    id : b'.session.session_id ≡ b.session.session_id
    version : b'.protocol_version ≡ b.protocol_version
    size : b'.maximum_frame_size ≡ b.maximum_frame_size

  decrypt-id :
      (s : SecureSession PeerId) (ciphertext aad : Bytes)
      → (decrypt lib s ciphertext aad).0.session_id ≡ s.session_id
  unfolding decrypt
  decrypt-id s ciphertext aad = ground arith

  read_frame-established :
      (b : EncryptedChannel PeerId) (frame : Bytes) (x : FrameHeader × Bytes)
      → read_frame lib json b frame ≡ ok x
      → b.state ≡ established
  unfolding read_frame
  read_frame-established b frame x h = ground (arith, channel_state_beq_iff b.state established)

  deliver-Received :
      (b b' : EncryptedChannel PeerId) (header : FrameHeader) (p : Result SessionError Bytes)
      (r : Result ChannelError ChannelMessage)
      → b.state ≡ established
      → deliver lib json b header p ≡ (b', r)
      → Received b b' r × Same b b'
  unfolding deliver
  deliver-Received b b' header (err e) r live h = ground arith
  deliver-Received b b' header (ok p) (err x) live h = ground arith
  deliver-Received b b' header (ok p) (ok ChannelMessage.close) live h = ground arith
  deliver-Received b b' header (ok p) (ok _) live h = ground arith

  Received-session :
      (b b' : EncryptedChannel PeerId) (s : SecureSession PeerId)
      (r : Result ChannelError ChannelMessage)
      → Received (record b { session = s }) b' r
      → Received b b' r
  Received-session b b' s (ok m) h = h
  Received-session b b' s (err e) h = h

  receive_body-Received :
      (b b' : EncryptedChannel PeerId) (header : FrameHeader) (ciphertext : Bytes)
      (r : Result ChannelError ChannelMessage)
      → b.state ≡ established
      → receive_body lib json b header ciphertext ≡ (b', r)
      → Received b b' r × Same b b'
  unfolding receive_body
  receive_body-Received b b' header ciphertext r live h =
      elim (Option-cases (json.header_json (record header { ciphertext_length = 0 }))) [
        | inl e ↦ ground arith
        | inr (aad, e) ↦
            let step =
              deliver-Received (record b { session = (decrypt lib b.session ciphertext aad).0 }) b'
                header (decrypt lib b.session ciphertext aad).1 r live
                (rw (e, receive_body) at h) in
            (
              Received-session b b' (decrypt lib b.session ciphertext aad).0 r step.0,
              record {
                id = step.1.id ∙ decrypt-id b.session ciphertext aad;
                version = step.1.version;
                size = step.1.size;
              },
            )
      ]

  receive-Same :
      (b b' : EncryptedChannel PeerId) (frame : Bytes) (r : Result ChannelError ChannelMessage)
      → receive lib json b frame ≡ (b', r)
      → Received b b' r × Same b b'
  receive-Same b b' frame r h = elim (Result-cases (read_frame lib json b frame)) [
    | inl (x, e) ↦
        receive_body-Received b b' x.0 x.1 r (read_frame-established b frame x e)
          (unfold receive in rw (e, receive) at h)
    | inr (x, e) ↦ unfold receive in ground (arith, e)
  ]

  -- A frame that is received was received on an established channel and takes exactly one step of the
  -- sequence, and the channel stays established unless the message closes it; a frame that is
  -- refused leaves the sequence and the state as they were.
  receive-Received :
      (b b' : EncryptedChannel PeerId) (frame : Bytes) (r : Result ChannelError ChannelMessage)
      → receive lib json b frame ≡ (b', r)
      → Received b b' r
  receive-Received b b' frame r h = (receive-Same b b' frame r h).0

  read_frame_again :
      (b b' : EncryptedChannel PeerId) (frame : Bytes) (x : FrameHeader × Bytes)
      → read_frame lib json b frame ≡ ok x
      → b'.receive_sequence ≡ b.receive_sequence + 1
      → b'.state ≡ established
      → Same b b'
      → read_frame lib json b' frame ≡ err replay_detected
  unfolding read_frame
  read_frame_again b b' frame x h step live same = ground (arith, same.id, same.version, same.size)

  receive-read :
      (b b' : EncryptedChannel PeerId) (frame : Bytes) (m : ChannelMessage)
      → receive lib json b frame ≡ (b', ok m)
      → (x : FrameHeader × Bytes) × (read_frame lib json b frame ≡ ok x)
  unfolding receive
  receive-read b b' frame m h = elim (Result-cases (read_frame lib json b frame)) [
    | inl (x, e) ↦ (x, e)
    | inr (x, e) ↦ ground (arith, e)
  ]

  -- The same frame is not received twice: a channel that received it, and is not closed by it,
  -- detects the replay and stays as it is.
  pub receive_twice :
      (b b' : EncryptedChannel PeerId) (frame : Bytes) (m : ChannelMessage)
      → receive lib json b frame ≡ (b', ok m)
      → m ≢ ChannelMessage.close
      → receive lib json b' frame ≡ (b', err replay_detected)
  unfolding receive
  receive_twice b b' frame m h stays =
      let ((live, step, still), same) = receive-Same b b' frame (ok m) h in
      let (x, e) = receive-read b b' frame m h in
      rw (read_frame_again b b' frame x e step (still stays) same, receive)
