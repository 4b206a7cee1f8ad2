-- ===== src/Tests/Channels.antt =====
-- Two linked channels, and a data plane and the pipeline over them.
use real_layer.Base.Bytes.{Bytes, to_be_bytes}
use real_layer.Base.{
  String, ◌≡◌, ◌≢◌, ap, refl, [], ◌∷◌, ◌++◌, none, Result, ok, err, arith, replicate, string_eq,
  list_eq, nat_eq, inr, map,
}
use real_layer.Network.Session.Types.{
  SecureSession, SessionRole, initiator, responder, RouteBinding,
}
use real_layer.Network.Session.Types as S
use real_layer.Network.Session.Cipher.{encrypt, nonce_from_counter}
use real_layer.Network.Channel.Types.{
  ChannelMessage, ChannelError, EncryptedChannel, established, backpressure, replay_detected,
  type_of,
}
use real_layer.Network.Channel.Sending.{encode, finish, enqueue, take_pending}
use real_layer.Network.Channel.Sending
use real_layer.Network.Channel.Receiving.{read_frame, receive_body, deliver}
use real_layer.Network.Channel.Receiving
use real_layer.Network.Channel.Delivery.{Linked, received, receive-send}
use real_layer.Network.Channel.Order.{
  Sends, done, sent, refused, taken, receive_all, receive_all-Sends,
}
use real_layer.Network.Channel.Replay.{receive_twice}
use real_layer.Network.Packet.{NetworkPacket, MtuPolicy, new, validate, packet_type_of, ipv4}
use real_layer.Network.Packet.Validity.{IsPacket}
use real_layer.Network.Address.Ipv4
use real_layer.Network.Routing.{
  public, classify_destination, classify_address, destination, read_v4, decide,
}
use real_layer.Network.DataPlane.{
  DataPlane, DataPlaneEnvelope, DataPlaneMessage, payload_data, data_plane_kind,
}
use real_layer.Network.DataPlane as Plane
use real_layer.Network.DataPlane.Delivery.{receive-send_payload}
use real_layer.Network.Pipeline.{PipelineError, route, admit, dispatch, envelop}
use real_layer.Network.Pipeline as Pipe
use real_layer.Network.Pipeline.Leaks.{send-public}
use real_layer.Tests.Instances.{toy, toy-Laws, toy_json, toy_json-CodecLaws, value_of}

abbrev session_of :
    (peer : String) → SessionRole → (send_key receive_key : Bytes) → SecureSession String
session_of peer role send_key receive_key = record {
  session_id = 7 ∷ 7 ∷ [];
  peer_id = peer;
  route = RouteBinding.one_hop "bob";
  role = role;
  state = S.established;
  send_key = send_key;
  receive_key = receive_key;
  send_nonce = 0;
  last_received_nonce = none;
}

-- A channel with room for one message.
abbrev channel_of : SecureSession String → EncryptedChannel String
channel_of session = record {
  session = session;
  state = established;
  protocol_version = "1";
  maximum_frame_size = 200;
  maximum_pending_messages = 1;
  pending_outbound = [];
  send_sequence = 0;
  receive_sequence = 0;
}

abbrev alice : EncryptedChannel String
alice = channel_of (session_of "bob" initiator (1 ∷ []) (2 ∷ []))

abbrev bob : EncryptedChannel String
bob = channel_of (session_of "alice" responder (2 ∷ []) (1 ∷ []))

linked : Linked toy toy_json alice bob
linked = record {
  same_id = refl;
  same_version = refl;
  key = refl;
  session_live = refl;
  live = refl;
  in_step = refl;
  below = tt;
  sizes = omega arith;
  small = omega arith;
}

abbrev hi : ChannelMessage
hi = ChannelMessage.session_data (104 ∷ 105 ∷ [])

abbrev sending : EncryptedChannel String × Result ChannelError Bytes
sending = Sending.send toy toy_json alice hi

abbrev alice_1 : EncryptedChannel String
alice_1 = sending.0

abbrev frame : Bytes
frame = value_of [] sending.1

sends : Sending.send toy toy_json alice hi ≡ (alice_1, ok frame)
unfolding Sending.send encode finish enqueue encrypt nonce_from_counter type_of to_be_bytes
sends = refl

not_close : hi ≢ ChannelMessage.close
not_close h = ground arith

-- The queue is full after one message, and free again when its frame is taken.
abbrev alice_2 : EncryptedChannel String
alice_2 = (Sending.send toy toy_json alice_1 ChannelMessage.ping).0

abbrev alice_3 : EncryptedChannel String
alice_3 = (take_pending toy toy_json alice_2).0

abbrev alice_4 : EncryptedChannel String
alice_4 = (Sending.send toy toy_json alice_3 ChannelMessage.pong).0

abbrev frame_4 : Bytes
frame_4 = value_of [] (Sending.send toy toy_json alice_3 ChannelMessage.pong).1

history : Sends toy toy_json alice_4 alice (hi ∷ ChannelMessage.pong ∷ []) (frame ∷ frame_4 ∷ [])
unfolding Sending.send encode finish enqueue encrypt nonce_from_counter type_of to_be_bytes
    take_pending
history = sent hi frame refl not_close (
    refused ChannelMessage.ping backpressure refl (inr refl)
      (taken (sent ChannelMessage.pong frame_4 refl (λ h. ground arith) done)))

receive_all-Sends_example :
    ((receive_all toy toy_json bob (frame ∷ frame_4 ∷ [])).1
      ≡ map ok (hi ∷ ChannelMessage.pong ∷ []))
    × Linked toy toy_json alice_4 (receive_all toy toy_json bob (frame ∷ frame_4 ∷ [])).0
receive_all-Sends_example =
    receive_all-Sends toy toy_json toy-Laws toy_json-CodecLaws alice_4 alice bob
      (hi ∷ ChannelMessage.pong ∷ []) (frame ∷ frame_4 ∷ []) linked history

abbrev bob_1 : EncryptedChannel String
bob_1 = received toy toy_json bob hi 0

receives : Receiving.receive toy toy_json bob frame ≡ (bob_1, ok hi)
receives =
    receive-send toy toy_json toy-Laws toy_json-CodecLaws alice alice_1 bob hi frame linked sends

receive_twice_example : Receiving.receive toy toy_json bob_1 frame ≡ (bob_1, err replay_detected)
receive_twice_example = receive_twice toy toy_json bob bob_1 frame hi receives not_close

abbrev plane_of : EncryptedChannel String → DataPlane String
plane_of channel = record { channel = channel; maximum_payload_size = 100 }

-- An IPv4 packet to 8.8.8.8, and one to 10.0.0.1.
abbrev outward : Bytes
outward = 0x45 ∷ replicate 15 0 ++ (8 ∷ 8 ∷ 8 ∷ 8 ∷ [])

abbrev inward : Bytes
inward = 0x45 ∷ replicate 15 0 ++ (10 ∷ 0 ∷ 0 ∷ 1 ∷ [])

abbrev planned : DataPlane String × Result Plane.DataPlaneError Bytes
planned = Plane.send toy toy_json (plane_of alice) outward

abbrev plane_frame : Bytes
plane_frame = value_of [] planned.1

abbrev envelope : DataPlaneEnvelope
envelope = record { kind = data_plane_kind; session_id = 7 ∷ 7 ∷ []; frame = plane_frame }

abbrev arrived : DataPlaneMessage
arrived = record {
  session_id = 7 ∷ 7 ∷ [];
  sequence_number = 0;
  message_type = payload_data;
  payload = outward;
}

plane_sends : Plane.send toy toy_json (plane_of alice) outward ≡ (planned.0, ok plane_frame)
unfolding Plane.send Sending.send encode finish enqueue encrypt nonce_from_counter type_of
    to_be_bytes
plane_sends = refl

receive-send_payload_example : (Plane.receive toy toy_json (plane_of bob) envelope).1 ≡ ok arrived
receive-send_payload_example =
    receive-send_payload toy toy_json toy-Laws toy_json-CodecLaws (plane_of alice) planned.0
      (plane_of bob) outward plane_frame linked (omega arith) plane_sends

plane_receives :
    Plane.receive toy toy_json (plane_of bob) envelope
    ≡ ((Plane.receive toy toy_json (plane_of bob) envelope).0, ok arrived)
plane_receives =
    ap
      (λ (r : Result Plane.DataPlaneError DataPlaneMessage).
        ((Plane.receive toy toy_json (plane_of bob) envelope).0, r))
      (receive-send_payload toy toy_json toy-Laws toy_json-CodecLaws (plane_of alice) planned.0
        (plane_of bob) outward plane_frame linked (omega arith) plane_sends)

abbrev policy : MtuPolicy
policy = record { tunnel_mtu = 1500; maximum_packet_size = 1400 }

abbrev inner : NetworkPacket
inner = record { bytes = inward; packet_type = ipv4 }

pipe_sends : Pipe.send toy toy_json policy (plane_of alice) outward ≡ (planned.0, ok envelope)
unfolding Pipe.send route admit dispatch envelop validate new packet_type_of classify_destination
    classify_address destination read_v4 decide Plane.send Sending.send encode finish enqueue
    encrypt nonce_from_counter type_of to_be_bytes Ipv4.is_loopback Ipv4.is_private
    Ipv4.is_link_local Ipv4.is_multicast Ipv4.is_broadcast Ipv4.is_unspecified
pipe_sends = refl

send-public_example :
    (p : NetworkPacket) × (p.bytes ≡ outward)
    × IsPacket 1400 1500 p
    × (classify_destination p ≡ ok public)
    × (Plane.send toy toy_json (plane_of alice) outward ≡ (planned.0, ok plane_frame))
send-public_example =
    send-public toy toy_json policy (plane_of alice) planned.0 outward envelope pipe_sends
