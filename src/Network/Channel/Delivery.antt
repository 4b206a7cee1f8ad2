-- ===== src/Network/Channel/Delivery.antt =====
-- network/src/channel.rs: two channels over the two ends of a session, and one frame between them.
use text.Mathlib.TextEquality.{eq_iff}
use real_layer.Base.Bytes.{Bytes, from_be_bytes}
use real_layer.Base.{
  ℕ, ◌+◌, ◌%◌, ◌≤◌, ◌<◌, ◌≡◌, ◌≢◌, refl, sym, ap, ◌∙◌, [], ◌∷◌, some, ok, arith, length,
  list_beq_iff, nat_eq, list_eq, string_eq, take, drop,
}
use real_layer.Network.Session.Types.{SecureSession}
use real_layer.Network.Session.Types as S
use real_layer.Network.Session.Primitives.{Primitives, Laws}
use real_layer.Network.Session.Replay.{ReceivedBelow, encrypt-ok, decrypt-encrypt}
use real_layer.Network.Channel.Types.{
  ChannelMessage, message_type_beq_iff, type_of, EncryptedChannel, established, closing, Codec,
  CodecLaws, FrameHeader,
}
use real_layer.Network.Channel.Sending.{send, header_for, frame_of, u32_limit}
use real_layer.Network.Channel.Receiving.{receive, read_frame, receive_body}
use real_layer.Network.Channel.Sent.{Sent, send-Sent}
use real_layer.Network.Channel.Frames.{
  length-frame_of, frame_of-length, frame_of-header, frame_of-ciphertext,
}

module _ (lib : Primitives) (json : Codec) where
  open lib use {PeerId}

  -- `b` has received all that `a` has sent, over the two ends of one session, and takes frames of
  -- the size that `a` sends.
  pub record Linked (a b : EncryptedChannel PeerId) : Type 0 where
    pub same_id : a.session.session_id ≡ b.session.session_id
    pub same_version : a.protocol_version ≡ b.protocol_version
    pub key : b.session.receive_key ≡ a.session.send_key
    pub session_live : b.session.state ≡ S.established
    pub live : b.state ≡ established
    pub in_step : a.send_sequence ≡ b.receive_sequence
    pub below : ReceivedBelow a.session.send_nonce b.session.last_received_nonce
    pub sizes : a.maximum_frame_size ≤ b.maximum_frame_size
    pub small : a.maximum_frame_size < u32_limit

  -- The receiver `b` after a message that came under `counter`.
  unfoldable pub received :
      EncryptedChannel PeerId → ChannelMessage → (counter : ℕ) → EncryptedChannel PeerId
  received b message counter = record b {
    session = record b.session { last_received_nonce = some counter };
    receive_sequence = b.receive_sequence + 1;
    state = elim message [ ChannelMessage.close ↦ closing | _ ↦ b.state ];
  }

  received-state :
      (b : EncryptedChannel PeerId) (message : ChannelMessage) (counter : ℕ)
      → message ≢ ChannelMessage.close
      → (received b message counter).state ≡ b.state
  unfolding received
  received-state b ChannelMessage.close counter stays = absurd (stays refl)
  received-state b _ counter stays = refl

  header_ne-nil :
      CodecLaws json → (h : FrameHeader) (bs : Bytes) → json.header_json h ≡ some bs → 0 < length bs
  header_ne-nil laws h [] e = ground (arith, laws.header h [] e, laws.header_empty)
  header_ne-nil laws h (x ∷ bs) e = omega arith

  module _ (laws : Laws lib) (codec : CodecLaws json) {a b a' : EncryptedChannel PeerId}
      {message : ChannelMessage} {frame : Bytes} (linked : Linked a b)
      (sent : Sent lib json a message a' frame) where
    sent_header : FrameHeader
    sent_header =
        header_for (record a { session = sent.session }) (type_of message) a.send_sequence
          (length sent.ciphertext % u32_limit)

    sent_sizes :
        (0 < length sent.header)
        × (4 + length sent.header + length sent.ciphertext ≤ b.maximum_frame_size)
        × (4 + length sent.header + length sent.ciphertext < u32_limit)
        × (length frame ≡ 4 + length sent.header + length sent.ciphertext)
    sent_sizes =
        let fits : length (frame_of sent.header sent.ciphertext) ≤ a.maximum_frame_size =
          rw sent.framed at sent.fits in
        let e = length-frame_of sent.header sent.ciphertext in
        let sizes = linked.sizes in
        let small = linked.small in
        (
          header_ne-nil codec _ sent.header sent.headed,
          omega arith,
          omega arith,
          omega (arith, ap length sent.framed),
        )

    sent_length : from_be_bytes (take 4 frame) ≡ length sent.header
    sent_length =
        let (_, _, small, _) = sent_sizes in
        rw sent.framed (frame_of-length sent.header sent.ciphertext (omega arith))

    sent_parse : json.header_parse (take (length sent.header) (drop 4 frame)) ≡ some sent_header
    unfolding sent_header
    sent_parse =
        rw (sent.framed, frame_of-header) (codec.header sent_header sent.header sent.headed)

    sent_ciphertext : drop (4 + length sent.header) frame ≡ sent.ciphertext
    sent_ciphertext = rw (sent.framed, frame_of-ciphertext)

    sent_session : sent.session ≡ record a.session { send_nonce = a.session.send_nonce + 1 }
    sent_session =
        let (_, _, _, e, _, _) =
          encrypt-ok lib a.session sent.session sent.plaintext sent.associated_data sent.ciphertext
            sent.sealed in
        e

    sent_id : sent.session.session_id ≡ b.session.session_id
    sent_id = ap (λ (s : SecureSession PeerId). s.session_id) sent_session ∙ linked.same_id

    -- The frame passes the receiver's checks.
    read_frame-sent : read_frame lib json b frame ≡ ok (sent_header, sent.ciphertext)
    unfolding read_frame sent_header
    read_frame-sent =
        let (nonempty, fits, small, size) = sent_sizes in
        ground (
          arith,
          linked.live,
          sent_length,
          sent_parse,
          sent_ciphertext,
          sent_id,
          linked.same_version,
          linked.in_step,
          eq_iff a.protocol_version b.protocol_version,
          list_beq_iff sent.session.session_id b.session.session_id,
        )

    sent_bound :
        json.header_json (record sent_header { ciphertext_length = 0 }) ≡ some sent.associated_data
    unfolding sent_header
    sent_bound = rw (sent_id ∙ sym linked.same_id) sent.bound

    receive_body-sent :
        receive_body lib json b sent_header sent.ciphertext
        ≡ (received b message a.session.send_nonce, ok message)
    unfolding receive_body received sent_header
    receive_body-sent = ground (
      arith,
      sent_bound,
      decrypt-encrypt lib laws a.session sent.session b.session sent.plaintext sent.associated_data
          sent.ciphertext sent.sealed linked.key linked.session_live linked.below,
      codec.message message sent.plaintext sent.encoded,
      message_type_beq_iff (type_of message) (type_of message),
      sent.room,
      linked.in_step,
    )

    receive-sent : receive lib json b frame ≡ (received b message a.session.send_nonce, ok message)
    unfolding receive
    receive-sent = rw (read_frame-sent, receive) receive_body-sent

    sent-Linked :
        message ≢ ChannelMessage.close → Linked a' (received b message a.session.send_nonce)
    unfolding received
    sent-Linked stays =
        rw (sent.left, sent_session)
          (record {
            same_id = linked.same_id;
            same_version = linked.same_version;
            key = linked.key;
            session_live = linked.session_live;
            live = received-state b message a.session.send_nonce stays ∙ linked.live;
            in_step = ap (λ (n : ℕ). n + 1) linked.in_step;
            below = omega arith;
            sizes = linked.sizes;
            small = linked.small;
          })

  module _ (laws : Laws lib) (codec : CodecLaws json) where
    -- Under the laws of the libraries, a frame that one channel sends, the channel that is linked
    -- to it receives as the same message: it takes one step of its sequence and records the
    -- counter.
    pub receive-send :
        (a a' b : EncryptedChannel PeerId) (message : ChannelMessage) (frame : Bytes)
        → Linked a b
        → send lib json a message ≡ (a', ok frame)
        → receive lib json b frame ≡ (received b message a.session.send_nonce, ok message)
    receive-send a a' b message frame linked h =
        receive-sent laws codec linked (send-Sent lib json a a' message frame h)

    -- Under the laws of the libraries, a sender that has sent a message other than a close, and a
    -- receiver that was linked to it and has received the frame, are linked again.
    pub send-Linked :
        (a a' b : EncryptedChannel PeerId) (message : ChannelMessage) (frame : Bytes)
        → Linked a b
        → send lib json a message ≡ (a', ok frame)
        → message ≢ ChannelMessage.close
        → Linked a' (received b message a.session.send_nonce)
    send-Linked a a' b message frame linked h stays =
        sent-Linked laws codec linked (send-Sent lib json a a' message frame h) stays
