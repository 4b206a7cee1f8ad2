-- ===== src/Network/DataPlane/Delivery.antt =====
-- network/src/data_plane.rs: payloads through two data planes over linked channels.
use text.Mathlib.TextEquality.{eq_iff}
use real_layer.Base.Bytes.{Bytes}
use real_layer.Base.{
  ◌≤◌, ◌≡◌, Result, ok, arith, length, list_beq_iff, nat_eq, Result-cases, inl, inr,
}
use real_layer.Network.Session.Primitives.{Primitives, Laws}
use real_layer.Network.Channel.Types.{ChannelMessage, ChannelError, Codec, CodecLaws}
use real_layer.Network.Channel.Sending as Sending
use real_layer.Network.Channel.Receiving as Receiving
use real_layer.Network.Channel.Delivery.{Linked, received, receive-send}
use real_layer.Network.DataPlane.{
  DataPlane, DataPlaneEnvelope, DataPlaneMessage, payload_data, data_plane_kind, send, receive,
  accept,
}

module _ (lib : Primitives) (json : Codec) where
  open lib use {PeerId}

  -- A payload within the limit is sent as the channel sends it.
  send-ok :
      (a a' : DataPlane PeerId) (payload frame : Bytes)
      → send lib json a payload ≡ (a', ok frame)
      → (length payload ≤ a.maximum_payload_size)
        × (Sending.send lib json a.channel (ChannelMessage.data_plane payload)
            ≡ (a'.channel, ok frame))
  unfolding send
  send-ok a a' payload frame h =
      elim (Result-cases (Sending.send lib json a.channel (ChannelMessage.data_plane payload)).1) [
        | inl (f, e) ↦ ground (arith, e)
        | inr (x, e) ↦ ground (arith, e)
      ]

  -- Under the laws of the libraries, a payload that one plane sends, a plane over the linked
  -- channel receives, under the session of both and with the sequence number under which it was
  -- sent, where the receiver's limit is no smaller.
  pub receive-send_payload :
      Laws lib
      → CodecLaws json
      → (a a' b : DataPlane PeerId) (payload frame : Bytes) → Linked lib json a.channel b.channel
      → a.maximum_payload_size ≤ b.maximum_payload_size
      → send lib json a payload ≡ (a', ok frame)
      → (receive lib json b (record {
        kind = data_plane_kind;
        session_id = b.channel.session.session_id;
        frame = frame;
      })).1
        ≡ ok (record {
          session_id = b.channel.session.session_id;
          sequence_number = a.channel.send_sequence;
          message_type = payload_data;
          payload = payload;
        })
  unfolding receive received
  receive-send_payload laws codec a a' b payload frame linked sizes h =
      let (short, sent) = send-ok a a' payload frame h in
      ground (
        arith,
        receive-send lib json laws codec a.channel a'.channel b.channel
            (ChannelMessage.data_plane payload) frame linked sent,
        linked.in_step,
        list_beq_iff b.channel.session.session_id b.channel.session.session_id,
        eq_iff data_plane_kind data_plane_kind,
      )

  accept_sound :
      (plane : DataPlane PeerId) (r : Result ChannelError ChannelMessage) (m : DataPlaneMessage)
      → accept lib json plane r ≡ ok m
      → (length m.payload ≤ plane.maximum_payload_size)
        × (r ≡ ok (ChannelMessage.data_plane m.payload))
  unfolding accept
  accept_sound plane (ok (ChannelMessage.data_plane payload)) m h = ground arith
  accept_sound plane r m h = ground arith

  -- What `receive` returns came in an envelope of the right kind for the plane's session, is the
  -- payload of the message that the channel received, and is within the limit.
  receive_sound :
      (b b' : DataPlane PeerId) (envelope : DataPlaneEnvelope) (m : DataPlaneMessage)
      → receive lib json b envelope ≡ (b', ok m)
      → (envelope.kind ≡ data_plane_kind)
        × (envelope.session_id ≡ b.channel.session.session_id)
        × ((Receiving.receive lib json b.channel envelope.frame).1
            ≡ ok (ChannelMessage.data_plane m.payload))
        × (length m.payload ≤ b.maximum_payload_size)
  unfolding receive
  receive_sound b b' envelope m h =
      let (channel, r) = Receiving.receive lib json b.channel envelope.frame in
      ground (
        arith,
        eq_iff envelope.kind data_plane_kind,
        list_beq_iff envelope.session_id b.channel.session.session_id,
        accept_sound (record b { channel = channel }) r m,
      )
