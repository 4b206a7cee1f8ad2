-- ===== src/Network/Channel/Sent.antt =====
-- The stages of `EncryptedChannel::send` in network/src/channel.rs, one after the other.
use real_layer.Base.Bytes.{Bytes}
use real_layer.Base.{
  ℕ, ◌+◌, ◌%◌, ◌≤◌, ◌<◌, ◌≡◌, refl, ap, [], ◌∷◌, ◌++◌, some, Result, ok, err, arith, length,
  Option-cases, inl, inr, if◌then◌else◌, ◌==◌,
}
use real_layer.Network.Session.Types.{SecureSession, SessionError}
use real_layer.Network.Session.Primitives.{Primitives}
use real_layer.Network.Session.Cipher.{encrypt, u64_limit}
use real_layer.Network.Channel.Types.{
  ChannelMessage, MessageType, type_of, EncryptedChannel, established, closing,
  channel_state_beq_iff, Codec, message_type_eq,
}
use real_layer.Network.Channel.Sending.{
  enqueue, finish, encode, send, header_for, frame_of, u32_limit,
}

module _ (lib : Primitives) (json : Codec) where
  open lib use {PeerId}

  enqueue-ok :
      (ch ch' : EncryptedChannel PeerId) (sequence : ℕ) (t : MessageType) (frame frame' : Bytes)
      → enqueue lib json ch sequence t frame ≡ (ch', ok frame')
      → (frame' ≡ frame)
        × (length frame ≤ ch.maximum_frame_size)
        × (ch' ≡ record ch {
          pending_outbound = ch.pending_outbound ++ frame ∷ [];
          state = if t == MessageType.close then closing else ch.state;
        })
  unfolding enqueue
  enqueue-ok ch ch' sequence t frame frame' h = ground arith

  -- The stages of a `send` of `message` that returned `frame` and left `ch'`.
  pub record Sent (ch : EncryptedChannel PeerId) (message : ChannelMessage)
      (ch' : EncryptedChannel PeerId) (frame : Bytes) : Type 0 where
    pub plaintext : Bytes
    pub associated_data : Bytes
    pub session : SecureSession PeerId
    pub ciphertext : Bytes
    pub header : Bytes
    pub live : ch.state ≡ established
    pub room : ch.send_sequence + 1 < u64_limit
    pub encoded : json.message_json message ≡ some plaintext
    pub bound :
        json.header_json (header_for ch (type_of message) ch.send_sequence 0) ≡ some associated_data
    pub sealed : encrypt lib ch.session plaintext associated_data ≡ (session, ok ciphertext)
    pub headed :
        json.header_json (
          header_for
            (record ch { session = session })
            (type_of message)
            ch.send_sequence
            (length ciphertext % u32_limit))
        ≡ some header
    pub framed : frame ≡ frame_of header ciphertext
    pub fits : length frame ≤ ch.maximum_frame_size
    pub left : ch' ≡ record ch {
      session = session;
      send_sequence = ch.send_sequence + 1;
      pending_outbound = ch.pending_outbound ++ frame ∷ [];
      state = if type_of message == MessageType.close then closing else ch.state;
    }

  send-stages :
      (ch ch' : EncryptedChannel PeerId) (message : ChannelMessage) (frame : Bytes)
      → send lib json ch message ≡ (ch', ok frame)
      → (ch.state ≡ established)
        × (ch.send_sequence + 1 < u64_limit)
        × (encode lib json
              (record ch { send_sequence = ch.send_sequence + 1 })
              ch.send_sequence
              message
            ≡ (ch', ok frame))
  unfolding send
  send-stages ch ch' message frame h = ground (arith, channel_state_beq_iff ch.state established)

  encode-stages :
      (ch ch' : EncryptedChannel PeerId) (sequence : ℕ) (message : ChannelMessage) (frame : Bytes)
      → encode lib json ch sequence message ≡ (ch', ok frame)
      → (plaintext associated_data : Bytes) × (json.message_json message ≡ some plaintext)
        × (json.header_json (header_for ch (type_of message) sequence 0) ≡ some associated_data)
        × (finish lib json
              (record ch { session = (encrypt lib ch.session plaintext associated_data).0 })
              sequence
              (type_of message)
              (encrypt lib ch.session plaintext associated_data).1
            ≡ (ch', ok frame))
  unfolding encode
  encode-stages ch ch' sequence message frame h = elim (Option-cases (json.message_json message)) [
    | inl e ↦ ground arith
    | inr (plaintext, e) ↦
        elim (Option-cases (json.header_json (header_for ch (type_of message) sequence 0))) [
          | inl e' ↦ ground arith
          | inr (associated_data, e') ↦ (plaintext, associated_data, e, e', ground arith)
        ]
  ]

  finish-stages :
      (ch ch' : EncryptedChannel PeerId) (sequence : ℕ) (t : MessageType)
      (r : Result SessionError Bytes) (frame : Bytes)
      → finish lib json ch sequence t r ≡ (ch', ok frame)
      → (ciphertext header : Bytes) × (r ≡ ok ciphertext)
        × (json.header_json (header_for ch t sequence (length ciphertext % u32_limit))
            ≡ some header)
        × (enqueue lib json ch sequence t (frame_of header ciphertext) ≡ (ch', ok frame))
  unfolding finish
  finish-stages ch ch' sequence t (err e) frame h = ground arith
  finish-stages ch ch' sequence t (ok ciphertext) frame h =
      elim (Option-cases
        (json.header_json (header_for ch t sequence (length ciphertext % u32_limit)))) [
          | inl e ↦ ground arith
          | inr (header, e) ↦ (ciphertext, header, refl, e, ground arith)
        ]

  pub send-Sent :
      (ch ch' : EncryptedChannel PeerId) (message : ChannelMessage) (frame : Bytes)
      → send lib json ch message ≡ (ch', ok frame)
      → Sent ch message ch' frame
  send-Sent ch ch' message frame h =
      let (live, room, encoding) = send-stages ch ch' message frame h in
      let (plaintext, aad, encoded, bound, finishing) =
        encode-stages _ ch' ch.send_sequence message frame encoding in
      let (ciphertext, header, sealed, headed, queued) =
        finish-stages _ ch' _ _ _ frame finishing in
      let (framed, fits, left) = enqueue-ok _ ch' _ _ _ frame queued in
      record {
        plaintext = plaintext;
        associated_data = aad;
        session = (encrypt lib ch.session plaintext aad).0;
        ciphertext = ciphertext;
        header = header;
        live = live;
        room = room;
        encoded = encoded;
        bound = bound;
        sealed = ap (λ r. ((encrypt lib ch.session plaintext aad).0, r)) sealed;
        headed = headed;
        framed = framed;
        fits = rw framed fits;
        left = rw framed left;
      }
