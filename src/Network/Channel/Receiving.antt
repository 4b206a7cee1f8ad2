-- ===== src/Network/Channel/Receiving.antt =====
-- `EncryptedChannel::receive` of network/src/channel.rs, cut into the checks on the frame
-- (`read_frame`) and what it does with a header that passed them (`receive_body`).
use real_layer.Base.Bytes.{Bytes, from_be_bytes}
use real_layer.Base.{
  ◌+◌, ◌||◌, Result, ok, err, ◌>>=◌, ◌>>◌, ensure, reject, ok_or, ltb, ◌==◌, nat_eq, string_eq,
  list_eq, length, take, drop, none, some, if◌then◌else◌,
}
use real_layer.Network.Session.Types.{SessionError}
use real_layer.Network.Session.Primitives.{Primitives}
use real_layer.Network.Session.Cipher.{u64_limit, decrypt}
use real_layer.Network.Channel.Types.{
  ChannelMessage, established, closing, FrameHeader, type_of, ChannelError, invalid_frame,
  frame_too_large, invalid_session, unsupported_version, invalid_message_type, replay_detected,
  invalid_sequence, channel_closed, from_session, EncryptedChannel, channel_state_eq,
  message_type_eq, Codec,
}

module _ (lib : Primitives) (json : Codec) where
  open lib use {PeerId}

  -- The header and the ciphertext of an acceptable frame.
  unfoldable pub read_frame :
      EncryptedChannel PeerId → (frame : Bytes) → Result ChannelError (FrameHeader × Bytes)
  read_frame ch frame = do
    ensure (ch.state == established) channel_closed
    reject (ltb ch.maximum_frame_size (length frame) || ltb (length frame) 4) frame_too_large
    let header_len = from_be_bytes (take 4 frame)
    reject
        (header_len == 0
          || ltb ch.maximum_frame_size header_len
          || ltb (length frame) (4 + header_len))
        invalid_frame
    header ← ok_or (json.header_parse (take header_len (drop 4 frame))) invalid_frame
    ensure (header.protocol_version == ch.protocol_version) unsupported_version
    ensure (header.session_id == ch.session.session_id) invalid_session
    reject (ltb header.sequence_number ch.receive_sequence) replay_detected
    ensure (header.sequence_number == ch.receive_sequence) invalid_sequence
    let ciphertext = drop (4 + header_len) frame
    ensure (length ciphertext == header.ciphertext_length) invalid_frame
    ok (header, ciphertext)

  -- From the plaintext on; the session has recorded its counter.
  unfoldable pub deliver :
      EncryptedChannel PeerId
      → FrameHeader
      → Result SessionError Bytes
      → EncryptedChannel PeerId × Result ChannelError ChannelMessage
  deliver ch header (err e) = (ch, err (from_session e))
  deliver ch header (ok plaintext) = elim (json.message_parse plaintext) [
    | none ↦ (ch, err invalid_message_type)
    | some message ↦
        if type_of message == header.message_type
        then (if ltb (ch.receive_sequence + 1) u64_limit
            then (
              record ch {
                receive_sequence = ch.receive_sequence + 1;
                state = elim message [ ChannelMessage.close ↦ closing | _ ↦ ch.state ];
              },
              ok message,
            )
            else (ch, err invalid_sequence))
        else (ch, err invalid_message_type)
  ]

  unfoldable pub receive_body :
      EncryptedChannel PeerId
      → FrameHeader
      → (ciphertext : Bytes) → EncryptedChannel PeerId × Result ChannelError ChannelMessage
  unfolding deliver
  receive_body ch header ciphertext =
      elim (json.header_json (record header { ciphertext_length = 0 })) [
        | none ↦ (ch, err invalid_frame)
        | some associated_data ↦
            let (session, r) = decrypt lib ch.session ciphertext associated_data in
            deliver (record ch { session = session }) header r
      ]

  unfoldable pub receive :
      EncryptedChannel PeerId
      → (frame : Bytes) → EncryptedChannel PeerId × Result ChannelError ChannelMessage
  unfolding read_frame receive_body
  receive ch frame = elim (read_frame ch frame) [
    | err e ↦ (ch, err e)
    | ok (header, ciphertext) ↦ receive_body ch header ciphertext
  ]
