-- ===== src/Tests/Exits.antt =====
-- The exit relay: its destinations and the packets that it takes.
use real_layer.Base.Bytes.{Bytes}
use real_layer.Base.Map.{contains_key, get}
use real_layer.Base.{
  ◌≡◌, ◌≢◌, ◌↔◌, refl, String, List, [], ◌∷◌, some, none, Option, ok, true, false, Result,
  if◌then◌else◌, ◌==◌, string_eq, list_eq, nat_eq,
}
use real_layer.Network.Address.{SocketAddr, v4}
use real_layer.Network.Address.Ipv4
use real_layer.Network.Dns.{is_unspecified}
use real_layer.Network.Packet.{NetworkPacket, ipv4}
use real_layer.Network.Session.Types.{RouteBinding, two_hop}
use real_layer.Relay.Candidates.{sort_by, insert_by}
use real_layer.Relay.Forwarding.{
  ForwardingContext, forwarding, validate_entry, validate_exit, validate_relay_session,
}
use real_layer.Relay.ExitNetwork.{
  DestinationPolicy, ExitNetworkError, from_strings, read_all, read_destination, new_policy, dedup,
  dedup_after, validate,
}
use real_layer.Relay.ExitNetwork.Policy.{is_listed, validate-from_strings}
use real_layer.Relay.ExitHandler.{
  ExitPacketHandler, ExitForwardingBinding, validate_bound_payload, handle_bound,
  handle_bound_with_adapter, handle_bound_with_adapter_payload, check_payload, check_bound,
  ensure_open, once,
}
use real_layer.Relay.ExitHandler.Duplicates.{Call, takes, handles, run, validate_bound_payload_once}
use real_layer.Tests.Instances.{toy}

abbrev server : SocketAddr
server = record { ip = v4 192 0 2 10; port = 9000 }

abbrev read : String → Option SocketAddr
read text = if text == "192.0.2.10:9000" then some server else none

abbrev policy : DestinationPolicy
policy = record { allowed = server ∷ [] }

loaded : from_strings read ("192.0.2.10:9000" ∷ "192.0.2.10:9000" ∷ []) ≡ ok policy
unfolding from_strings read_all read_destination is_unspecified Ipv4.is_unspecified new_policy dedup
    dedup_after sort_by insert_by
loaded = refl

validate-from_strings_example : (validate read policy "192.0.2.10:9000" ≡ ok server) ↔ (
    (read "192.0.2.10:9000" ≡ some server)
    × (is_listed read server ("192.0.2.10:9000" ∷ "192.0.2.10:9000" ∷ []) ≡ true))
validate-from_strings_example =
    validate-from_strings read ("192.0.2.10:9000" ∷ "192.0.2.10:9000" ∷ []) policy "192.0.2.10:9000"
      server loaded

abbrev route : RouteBinding String
route = two_hop "bob" "carol" "10.0.0.9:4001"

abbrev context : ForwardingContext String
context = record {
  forwarding_id = 5 ∷ [];
  client_session_id = 7 ∷ [];
  client_peer = "alice";
  entry_peer = "bob";
  exit_peer = "carol";
  route = route;
  state = forwarding;
  relay_session_id = some (9 ∷ []);
  last_request = none;
  last_sequence = none;
}

abbrev binding : ExitForwardingBinding String
binding = record { relay_session_id = 9 ∷ []; entry_peer = "bob"; exit_peer = "carol" }

abbrev handler : ExitPacketHandler
handler = record {
  maximum_packet_size = 100;
  mtu = 100;
  maximum_pending_responses = 1;
  pending_responses = [];
  handled_packets = [];
  is_closed = false;
}

abbrev packet : NetworkPacket
packet = record { bytes = 69 ∷ []; packet_type = ipv4 }

abbrev calls : List (Call toy)
calls = takes ∷ handles packet ∷ []

abbrev echo : Bytes → Result ExitNetworkError Bytes
echo bs = ok bs

accepted : (validate_bound_payload toy (5 ∷ []) (1 ∷ []) context binding handler).1 ≡ ok tt
unfolding validate_bound_payload check_payload check_bound ensure_open validate_entry validate_exit
    validate_relay_session once contains_key get
accepted = refl

abbrev later : ExitPacketHandler
later = run toy calls (validate_bound_payload toy (5 ∷ []) (1 ∷ []) context binding handler).0

validate_bound_payload_once_example :
    ((validate_bound_payload toy (5 ∷ []) (2 ∷ []) context binding later).1 ≢ ok tt)
    × ((handle_bound toy (5 ∷ []) packet context binding later).1 ≢ ok packet)
    × ((handle_bound_with_adapter toy echo (5 ∷ []) packet context binding later).1 ≢ ok packet)
    × ((handle_bound_with_adapter_payload toy echo (5 ∷ []) (2 ∷ []) context binding later).1
        ≢ ok (2 ∷ []))
validate_bound_payload_once_example =
    validate_bound_payload_once toy (5 ∷ []) (1 ∷ []) context binding handler calls (2 ∷ [])
      (2 ∷ []) packet packet context binding echo accepted
