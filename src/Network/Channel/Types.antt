-- ===== src/Network/Channel/Types.antt =====
-- The data of network/src/channel.rs, and serde_json as it is used there.
use real_layer.Base.Bytes.{Bytes}
use real_layer.Base.{
  ℕ, String, Bool, true, false, ◌≡◌, ◌↔◌, List, [], Option, none, some, arith, Eq,
}
use real_layer.Network.Session.Types.{SessionId, SecureSession, SessionError, invalid_state}

abbrev pub frame_overhead_limit : ℕ
frame_overhead_limit = 64

pub data ChannelMessage : Type 0 where
  ping pong close : ChannelMessage
  session_data : Bytes → ChannelMessage
  data_plane : Bytes → ChannelMessage

pub data ChannelState : Type 0 where
  opening established closing closed failed : ChannelState

pub data MessageType : Type 0 where
  ping pong session_data data_plane close : MessageType

pub record FrameHeader : Type 0 where
  pub protocol_version : String
  pub session_id : SessionId
  pub message_type : MessageType
  pub sequence_number : ℕ
  pub ciphertext_length : ℕ

-- `impl From<&ChannelMessage> for MessageType`
unfoldable pub type_of : ChannelMessage → MessageType
type_of ChannelMessage.ping = MessageType.ping
type_of ChannelMessage.pong = MessageType.pong
type_of (ChannelMessage.session_data bytes) = MessageType.session_data
type_of (ChannelMessage.data_plane bytes) = MessageType.data_plane
type_of ChannelMessage.close = MessageType.close

pub data ChannelError : Type 0 where
  invalid_frame frame_too_large invalid_session invalid_peer unsupported_version : ChannelError
  invalid_message_type replay_detected invalid_sequence authentication_failed : ChannelError
  encryption_failed decryption_failed channel_closed backpressure session_invalid : ChannelError

-- `impl From<SessionError> for ChannelError`
unfoldable pub from_session : SessionError → ChannelError
from_session (invalid_state state operation) = session_invalid
from_session SessionError.decryption_failed = ChannelError.decryption_failed
from_session SessionError.encryption_failed = ChannelError.encryption_failed
from_session e = ChannelError.authentication_failed

pub record EncryptedChannel (P : Type 0) : Type 0 where
  pub session : SecureSession P
  pub state : ChannelState
  pub protocol_version : String
  pub maximum_frame_size : ℕ
  pub maximum_pending_messages : ℕ
  pub pending_outbound : List Bytes
  pub send_sequence : ℕ
  pub receive_sequence : ℕ

abbrev pub channel_state_beq : ChannelState → ChannelState → Bool
channel_state_beq opening opening = true
channel_state_beq established established = true
channel_state_beq closing closing = true
channel_state_beq closed closed = true
channel_state_beq failed failed = true
channel_state_beq s t = false

pub channel_state_beq_iff : (s t : ChannelState) → (channel_state_beq s t ≡ true) ↔ (s ≡ t)
channel_state_beq_iff s t = ground arith

instance abbrev pub channel_state_eq : Eq ChannelState
channel_state_eq = record { beq = channel_state_beq; beq_iff = channel_state_beq_iff }

abbrev pub message_type_beq : MessageType → MessageType → Bool
message_type_beq MessageType.ping MessageType.ping = true
message_type_beq MessageType.pong MessageType.pong = true
message_type_beq MessageType.session_data MessageType.session_data = true
message_type_beq MessageType.data_plane MessageType.data_plane = true
message_type_beq MessageType.close MessageType.close = true
message_type_beq s t = false

pub message_type_beq_iff : (s t : MessageType) → (message_type_beq s t ≡ true) ↔ (s ≡ t)
message_type_beq_iff s t = ground arith

instance abbrev pub message_type_eq : Eq MessageType
message_type_eq = record { beq = message_type_beq; beq_iff = message_type_beq_iff }

-- serde_json's `to_vec` and `from_slice` on headers and messages.
pub record Codec : Type 0 where
  pub header_json : FrameHeader → Option Bytes
  pub header_parse : Bytes → Option FrameHeader
  pub message_json : ChannelMessage → Option Bytes
  pub message_parse : Bytes → Option ChannelMessage

-- What was encoded is decoded, and the empty text is no header.
pub record CodecLaws (json : Codec) : Type 0 where
  pub header :
      (h : FrameHeader) (bs : Bytes) → json.header_json h ≡ some bs → json.header_parse bs ≡ some h
  pub header_empty : json.header_parse [] ≡ none
  pub message :
      (m : ChannelMessage) (bs : Bytes)
      → json.message_json m ≡ some bs
      → json.message_parse bs ≡ some m
