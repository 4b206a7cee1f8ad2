-- ===== src/Tests/Tunnels.antt =====
-- Packets that the client takes from its tunnel and gives back to it.
use real_layer.Base.Bytes.{Bytes, to_be_bytes, from_be_bytes}
use real_layer.Base.{
  String, Result, ◌≡◌, ◌≢◌, refl, arith, [], ◌∷◌, some, none, ok, err, error, string_eq, list_eq,
  nat_eq,
}
use real_layer.Network.Address.{v4}
use real_layer.Network.Session.Types.{RouteBinding, two_hop, initiator}
use real_layer.Network.Session.Types as S
use real_layer.Network.Session.Cipher.{encrypt, nonce_from_counter}
use real_layer.Network.Channel.Types.{EncryptedChannel, established, type_of}
use real_layer.Network.Channel.Sending.{encode, finish, enqueue}
use real_layer.Network.Channel.Sending
use real_layer.Network.DataPlane.{DataPlane, DataPlaneError, open_plane, data_plane_kind}
use real_layer.Network.DataPlane as Plane
use real_layer.Relay.Forwarding.{
  ForwardingMessage, ForwardedPacket, ForwardingContext, validate_message, accept_sequence,
  sequence_violation, dns, ip,
}
use real_layer.Relay.Forwarding.Messages.{initial}
use real_layer.Client.DnsPackets.{
  extract_dns_payload, extract_udp, read_u16, build_dns_response_packet,
}
use real_layer.Client.Forwarding.{
  Engine, Turn, on_packet, on_ready_packet, forward, seal_payload, forwarding_message,
  forwarded_packet, describe, describe_by, describe_ip, on_message,
}
use real_layer.Client.Forwarding.Refusals.{validate_message-on_packet_ip, accept_sequence-on_packet}
use real_layer.Client.Forwarding.Returns.{on_message-on_packet}
use real_layer.Network.Channel.Delivery.{Linked}
use real_layer.Tests.Instances.{toy, toy_json, toy-Laws, toy_json-CodecLaws, value_of}

abbrev route : RouteBinding String
route = two_hop "bob" "carol" "10.0.0.9:4001"

abbrev channel : EncryptedChannel String
channel = record {
  session = record {
    session_id = 7 ∷ 7 ∷ [];
    peer_id = "bob";
    route = route;
    role = initiator;
    state = S.established;
    send_key = 1 ∷ [];
    receive_key = 1 ∷ [];
    send_nonce = 0;
    last_received_nonce = none;
  };
  state = established;
  protocol_version = "1";
  maximum_frame_size = 4096;
  maximum_pending_messages = 8;
  pending_outbound = [];
  send_sequence = 0;
  receive_sequence = 0;
}

abbrev engine : Engine String
engine = record {
  active_channel = some channel;
  active_route = some route;
  exit_peer = some "carol";
  current_session_id = some (7 ∷ 7 ∷ []);
}

-- An IPv4 header of twenty bytes without a payload.
abbrev bare : Bytes
bare = 69 ∷ 0 ∷ 0 ∷ 20 ∷ 0 ∷ 0 ∷ 0 ∷ 0 ∷ 64 ∷ 6 ∷ 0 ∷ 0 ∷ 10 ∷ 8 ∷ 0 ∷ 1 ∷ 9 ∷ 9 ∷ 9 ∷ 9 ∷ []

abbrev bare_packet : ForwardedPacket
bare_packet = forwarded_packet (7 ∷ 7 ∷ []) ip 0 (record { ip = v4 9 9 9 9; port = 0 }) bare

-- A UDP datagram with two bytes to port 53.
abbrev asked : Bytes
asked =
    69 ∷ 0 ∷ 0 ∷ 30 ∷ 0 ∷ 0 ∷ 0 ∷ 0 ∷ 64 ∷ 17 ∷ 0 ∷ 0 ∷ 10 ∷ 8 ∷ 0 ∷ 1 ∷ 9 ∷ 9 ∷ 9 ∷ 9 ∷ 1 ∷ 0 ∷ 0
    ∷ 53 ∷ 0 ∷ 10 ∷ 0 ∷ 0 ∷ 5 ∷ 6 ∷ []

abbrev asked_packet : ForwardedPacket
asked_packet =
    forwarded_packet (7 ∷ 7 ∷ []) dns 256 (record { ip = v4 9 9 9 9; port = 53 }) (5 ∷ 6 ∷ [])

abbrev message_for : ForwardedPacket → ForwardingMessage String
message_for p =
    forwarding_message toy toy_json "alice" (7 ∷ 7 ∷ []) route
      (value_of [] (seal_payload toy toy_json channel p.payload).1) p

abbrev turn : Bytes → Turn toy toy_json
turn packet = on_packet toy toy_json "alice" engine packet

bare_none : extract_dns_payload bare ≡ err (error tt)
unfolding extract_dns_payload
bare_none = refl

asked_some : extract_dns_payload asked ≡ ok (record { ip = v4 9 9 9 9; port = 53 }, 256, 5 ∷ 6 ∷ [])
unfolding extract_dns_payload extract_udp read_u16 from_be_bytes
asked_some = refl

bare_sent : turn bare ≡ ((turn bare).0, ok ("carol", message_for bare_packet))
unfolding on_packet on_ready_packet forward seal_payload describe describe_by describe_ip
    extract_dns_payload open_plane Plane.send Sending.send encode finish enqueue encrypt
    nonce_from_counter type_of to_be_bytes forwarded_packet
bare_sent = refl

asked_sent : turn asked ≡ ((turn asked).0, ok ("carol", message_for asked_packet))
unfolding on_packet on_ready_packet forward seal_payload describe describe_by describe_ip
    extract_dns_payload extract_udp read_u16 from_be_bytes open_plane Plane.send Sending.send encode
    finish enqueue encrypt nonce_from_counter type_of to_be_bytes forwarded_packet
asked_sent = refl

abbrev context : ForwardingContext String
context = initial toy (7 ∷ 7 ∷ []) (7 ∷ 7 ∷ []) "alice" "bob" "carol" route

bare_packet_of : (message_for bare_packet).packet ≡ some bare_packet
unfolding forwarding_message
bare_packet_of = refl

asked_packet_of : (message_for asked_packet).packet ≡ some asked_packet
unfolding forwarding_message
asked_packet_of = refl

validate_message-on_packet_ip_example :
    validate_message toy (message_for bare_packet) context ≢ ok tt
validate_message-on_packet_ip_example =
    validate_message-on_packet_ip toy toy_json "alice" engine (turn bare).0 bare "carol"
      (message_for bare_packet) context bare_none bare_sent

accept_sequence-on_packet_example :
    (accept_sequence toy bare_packet.sequence
      (accept_sequence toy asked_packet.sequence context).0).1
    ≡ err sequence_violation
accept_sequence-on_packet_example =
    accept_sequence-on_packet toy toy_json "alice" engine (turn asked).0 asked "carol"
      (message_for asked_packet) asked_packet engine (turn bare).0 bare "carol"
      (message_for bare_packet) bare_packet context asked_sent asked_packet_of bare_sent
      bare_packet_of

-- The toy keys are the same both ways, so that the client's channel can stand for the exit's.
linked : Linked toy toy_json channel channel
linked = record {
  same_id = refl;
  same_version = refl;
  key = refl;
  session_live = refl;
  live = refl;
  in_step = refl;
  below = tt;
  sizes = omega arith;
  small = omega arith;
}

abbrev exit : DataPlane String
exit = record { channel = channel; maximum_payload_size = 512 }

abbrev sending : DataPlane String × Result DataPlaneError Bytes
sending = Plane.send toy toy_json exit (1 ∷ 2 ∷ 3 ∷ [])

abbrev frame : Bytes
frame = value_of [] sending.1

sends : Plane.send toy toy_json exit (1 ∷ 2 ∷ 3 ∷ []) ≡ (sending.0, ok frame)
unfolding Plane.send Sending.send encode finish enqueue encrypt nonce_from_counter type_of
    to_be_bytes
sends = refl

abbrev answer : ForwardingMessage String
answer = record (message_for asked_packet) {
  kind = "ghost_layer_forwarding";
  data_envelope = record { kind = data_plane_kind; session_id = 7 ∷ 7 ∷ []; frame = frame };
}

on_message-on_packet_example :
    (on_message toy toy_json engine answer).1
    ≡ some (build_dns_response_packet (1 ∷ 2 ∷ 3 ∷ []) (9, 9, 9, 9) (10, 8, 0, 1) 53 256)
on_message-on_packet_example =
    on_message-on_packet toy toy_json toy-Laws toy_json-CodecLaws "alice" engine (turn asked).0
      asked "carol" (message_for asked_packet) answer (9, 9, 9, 9) 256 (5 ∷ 6 ∷ []) engine channel
      exit sending.0 (1 ∷ 2 ∷ 3 ∷ []) frame asked_some asked_sent refl linked (omega arith) sends
      refl refl refl
