-- ===== src/Network/Channel/Sending.antt =====
-- `EncryptedChannel::open`, `send`, `take_pending`, `close` and `mark_remote_closed` of
-- network/src/channel.rs. `send` is cut where it advances the sequence number (`send`, `encode`) and
-- where the frame is complete (`enqueue`). `usize` has 64 bits; `as u32` keeps the low 32.
use real_layer.Base.Bytes.{Bytes, to_be_bytes}
use real_layer.Base.{
  ℕ, String, ◌+◌, ◌%◌, ◌^◌, ◌||◌, not, [], ◌∷◌, ◌++◌, Option, none, some, Result, ok, err, ltb, leb,
  ◌==◌, nat_eq, length, map_err, if◌then◌else◌,
}
use real_layer.Network.Session.Types.{SecureSession, state_eq}
use real_layer.Network.Session.Types as S
use real_layer.Network.Session.Primitives.{Primitives}
use real_layer.Network.Session.Cipher.{u64_limit, encrypt}
use real_layer.Network.Session.Cipher
use real_layer.Network.Channel.Types.{
  ChannelMessage, established, closing, closed, opening, failed, MessageType, FrameHeader, type_of,
  ChannelError, invalid_frame, frame_too_large, invalid_message_type, invalid_sequence,
  channel_closed, backpressure, session_invalid, from_session, EncryptedChannel, channel_state_eq,
  message_type_eq, Codec, frame_overhead_limit,
}

abbrev pub u32_limit : ℕ
u32_limit = 2 ^ 32

-- The frame: the header's length in four bytes, the header, the ciphertext.
abbrev pub frame_of : (header ciphertext : Bytes) → Bytes
frame_of header ciphertext = to_be_bytes 4 (length header % u32_limit) ++ (header ++ ciphertext)

abbrev pub header_for :
    {P : Type 0} → EncryptedChannel P → MessageType → (sequence ciphertext_length : ℕ) → FrameHeader
header_for ch message_type sequence ciphertext_length = record {
  protocol_version = ch.protocol_version;
  session_id = ch.session.session_id;
  message_type = message_type;
  sequence_number = sequence;
  ciphertext_length = ciphertext_length;
}

module _ (lib : Primitives) (json : Codec) where
  open lib use {PeerId}

  unfoldable pub open_channel :
      SecureSession PeerId
      → (protocol_version : String) → (maximum_frame_size maximum_pending_messages : ℕ)
      → Result ChannelError (EncryptedChannel PeerId)
  open_channel session protocol_version maximum_frame_size maximum_pending_messages =
      if not (session.state == S.established)
        || leb maximum_frame_size frame_overhead_limit
        || maximum_pending_messages == 0
      then err session_invalid
      else ok (record {
        session = session;
        state = established;
        protocol_version = protocol_version;
        maximum_frame_size = maximum_frame_size;
        maximum_pending_messages = maximum_pending_messages;
        pending_outbound = [];
        send_sequence = 0;
        receive_sequence = 0;
      })

  -- The end of `send`: a frame that is too large or finds the queue full gives its number back.
  unfoldable pub enqueue :
      EncryptedChannel PeerId
      → (sequence : ℕ) → MessageType
      → (frame : Bytes) → EncryptedChannel PeerId × Result ChannelError Bytes
  enqueue ch sequence message_type frame =
      if ltb ch.maximum_frame_size (length frame)
      then (record ch { send_sequence = sequence }, err frame_too_large)
      else if leb ch.maximum_pending_messages (length ch.pending_outbound)
      then (record ch { send_sequence = sequence }, err backpressure)
      else (
        record ch {
          pending_outbound = ch.pending_outbound ++ frame ∷ [];
          state = if message_type == MessageType.close then closing else ch.state;
        },
        ok frame,
      )

  -- From the ciphertext on.
  unfoldable pub finish :
      EncryptedChannel PeerId
      → (sequence : ℕ) → MessageType
      → Result S.SessionError Bytes
      → EncryptedChannel PeerId × Result ChannelError Bytes
  unfolding enqueue
  finish ch sequence message_type (err e) = (ch, err (from_session e))
  finish ch sequence message_type (ok ciphertext) =
      elim (json.header_json
        (header_for ch message_type sequence (length ciphertext % u32_limit))) [
          | none ↦ (ch, err invalid_frame)
          | some header ↦ enqueue ch sequence message_type (frame_of header ciphertext)
        ]

  -- From the plaintext on; `ch` has the advanced sequence number.
  unfoldable pub encode :
      EncryptedChannel PeerId
      → (sequence : ℕ) → ChannelMessage
      → EncryptedChannel PeerId × Result ChannelError Bytes
  unfolding finish
  encode ch sequence message = elim (json.message_json message) [
    | none ↦ (ch, err invalid_message_type)
    | some plaintext ↦ elim (json.header_json (header_for ch (type_of message) sequence 0)) [
      | none ↦ (ch, err invalid_frame)
      | some associated_data ↦
          let (session, r) = encrypt lib ch.session plaintext associated_data in
          finish (record ch { session = session }) sequence (type_of message) r
    ]
  ]

  unfoldable pub send :
      EncryptedChannel PeerId → ChannelMessage → EncryptedChannel PeerId × Result ChannelError Bytes
  unfolding encode
  send ch message =
      if ch.state == established
      then (if ltb (ch.send_sequence + 1) u64_limit
          then encode (record ch { send_sequence = ch.send_sequence + 1 }) ch.send_sequence message
          else (ch, err invalid_sequence))
      else (ch, err channel_closed)

  unfoldable pub take_pending : EncryptedChannel PeerId → EncryptedChannel PeerId × Option Bytes
  take_pending ch = elim ch.pending_outbound [
    | [] ↦ (ch, none)
    | frame ∷ frames ↦ (record ch { pending_outbound = frames }, some frame)
  ]

  unfoldable pub close_channel :
      EncryptedChannel PeerId → EncryptedChannel PeerId × Result ChannelError (Unit {0})
  close_channel ch =
      let (session, r) = Cipher.close lib ch.session in
      let done : EncryptedChannel PeerId × Result ChannelError (Unit {0}) =
        (record ch { state = closed; session = session }, map_err from_session r) in
      elim ch.state [
        | established ↦ done
        | closing ↦ done
        | closed ↦ (ch, err channel_closed)
        | failed ↦ (ch, err channel_closed)
        | opening ↦ (ch, err session_invalid)
      ]

  unfoldable pub mark_remote_closed : EncryptedChannel PeerId → EncryptedChannel PeerId
  mark_remote_closed ch = record ch { state = closed }
