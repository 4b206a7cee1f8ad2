-- ===== src/Network/DataPlane.antt =====
-- network/src/data_plane.rs: payloads of bounded size over a channel. A `DataPlane` borrows its
-- channel, so the model's record holds the channel as it is while the borrow lasts.
pub mod Delivery
use real_layer.Base.Bytes.{Bytes}
use real_layer.Base.{
  ℕ, ◌-◌, String, not, ◌||◌, Result, ok, err, map_err, ltb, ◌==◌, nat_eq, string_eq, list_eq,
  length, if◌then◌else◌,
}
use real_layer.Network.Session.Types.{SessionId}
use real_layer.Network.Session.Primitives.{Primitives}
use real_layer.Network.Channel.Types as C
use real_layer.Network.Channel.Types.{
  ChannelError, ChannelMessage, EncryptedChannel, Codec, channel_state_eq,
}
use real_layer.Network.Channel.Sending
use real_layer.Network.Channel.Receiving

abbrev pub data_plane_kind : String
data_plane_kind = "data_plane"

abbrev pub default_maximum_payload_size : ℕ
default_maximum_payload_size = 2048

pub record DataPlaneEnvelope : Type 0 where
  pub kind : String
  pub session_id : SessionId
  pub frame : Bytes

pub data DataPlaneMessageType : Type 0 where
  payload_data : DataPlaneMessageType

pub record DataPlaneMessage : Type 0 where
  pub session_id : SessionId
  pub sequence_number : ℕ
  pub message_type : DataPlaneMessageType
  pub payload : Bytes

pub data DataPlaneError : Type 0 where
  invalid_session closed_session oversized_payload malformed_frame : DataPlaneError
  duplicate_message sequence_violation unavailable_channel backpressure : DataPlaneError
  unexpected_message_type : DataPlaneError

-- `impl From<ChannelError> for DataPlaneError`
unfoldable pub from_channel : ChannelError → DataPlaneError
from_channel ChannelError.invalid_session = invalid_session
from_channel ChannelError.invalid_peer = invalid_session
from_channel ChannelError.session_invalid = invalid_session
from_channel ChannelError.channel_closed = closed_session
from_channel ChannelError.frame_too_large = malformed_frame
from_channel ChannelError.replay_detected = duplicate_message
from_channel ChannelError.invalid_sequence = sequence_violation
from_channel ChannelError.backpressure = DataPlaneError.backpressure
from_channel ChannelError.invalid_frame = malformed_frame
from_channel ChannelError.unsupported_version = malformed_frame
from_channel ChannelError.decryption_failed = malformed_frame
from_channel ChannelError.authentication_failed = malformed_frame
from_channel ChannelError.encryption_failed = malformed_frame
from_channel ChannelError.invalid_message_type = malformed_frame

pub record DataPlane (P : Type 0) : Type 0 where
  pub channel : EncryptedChannel P
  pub maximum_payload_size : ℕ

module _ (lib : Primitives) (json : Codec) where
  open lib use {PeerId}

  unfoldable pub open_plane :
      EncryptedChannel PeerId
      → (maximum_payload_size : ℕ) → Result DataPlaneError (DataPlane PeerId)
  open_plane channel maximum_payload_size =
      if not (channel.state == C.established) || maximum_payload_size == 0
      then err unavailable_channel
      else ok (record { channel = channel; maximum_payload_size = maximum_payload_size })

  abbrev pub session_id : DataPlane PeerId → SessionId
  session_id plane = plane.channel.session.session_id

  unfoldable pub send :
      DataPlane PeerId → (payload : Bytes) → DataPlane PeerId × Result DataPlaneError Bytes
  send plane payload =
      if ltb plane.maximum_payload_size (length payload)
      then (plane, err oversized_payload)
      else (let (channel, r) =
            Sending.send lib json plane.channel (ChannelMessage.data_plane payload) in
          (record plane { channel = channel }, map_err from_channel r))

  -- What `receive` makes of the channel's message; `plane` has the channel after it.
  unfoldable pub accept :
      DataPlane PeerId → Result ChannelError ChannelMessage → Result DataPlaneError DataPlaneMessage
  accept plane (err e) = err (from_channel e)
  accept plane (ok (ChannelMessage.data_plane payload)) =
      if ltb plane.maximum_payload_size (length payload)
      then err oversized_payload
      else ok (record {
        session_id = session_id plane;
        sequence_number = plane.channel.receive_sequence - 1;
        message_type = payload_data;
        payload = payload;
      })
  accept plane (ok message) = err unexpected_message_type

  unfoldable pub receive :
      DataPlane PeerId
      → DataPlaneEnvelope
      → DataPlane PeerId × Result DataPlaneError DataPlaneMessage
  unfolding accept
  receive plane envelope =
      if not (envelope.kind == data_plane_kind) || not (envelope.session_id == session_id plane)
      then (plane, err invalid_session)
      else (let (channel, r) = Receiving.receive lib json plane.channel envelope.frame in
          let plane' : DataPlane PeerId = record plane { channel = channel } in
          (plane', accept plane' r))

  unfoldable pub close : DataPlane PeerId → DataPlane PeerId × Result DataPlaneError (Unit {0})
  close plane =
      let (channel, r) = Sending.close_channel lib json plane.channel in
      (record plane { channel = channel }, map_err from_channel r)
