-- ===== src/Tests/Circuits.antt =====
-- A circuit from alice over bob and carol.
use real_layer.Base.{String, ◌≡◌, ◌↔◌, refl, List, [], ◌∷◌, some, ok, string_eq, list_eq, nat_eq}
use real_layer.Network.Session.Types.{RouteBinding, two_hop}
use real_layer.Network.Address.{v4}
use real_layer.Relay.Forwarding.{
  ForwardingContext, ForwardingMessage, ForwardedPacket, udp, client_to_exit, validate_message,
  transition_closing, begin_forwarding, transition_connecting, transition_established, transition,
  is_repeated, accept_sequence, is_violation,
}
use real_layer.Relay.Forwarding.Messages.{Matches, validate_message_iff, initial}
use real_layer.Relay.Forwarding.Steps.{Op, connect, establish, forward, number}
use real_layer.Relay.Forwarding.Lifecycle.{run, apply}
use real_layer.Relay.Forwarding.Sequences.{
  RisingFrom, accepted_numbers, accepted_numbers-RisingFrom,
}
use real_layer.Tests.Instances.{toy}

abbrev client : String
client = "alice"

abbrev entry : String
entry = "bob"

abbrev exit : String
exit = "carol"

abbrev route : RouteBinding String
route = two_hop "bob" "carol" "10.0.0.9:4001"

abbrev context : ForwardingContext String
context = initial toy (5 ∷ []) (7 ∷ []) "alice" "bob" "carol" route

abbrev packet : ForwardedPacket
packet = record {
  protocol = udp;
  source = some (record { ip = v4 10 0 0 1; port = 5000 });
  destination = record { ip = v4 8 8 8 8; port = 53 };
  flow_id = 5 ∷ [];
  session_id = 7 ∷ [];
  route_id = 5 ∷ [];
  sequence = 1;
  payload = 1 ∷ 2 ∷ [];
}

abbrev message : ForwardingMessage String
message = record {
  kind = "ghost_layer_forwarding";
  forwarding_id = 5 ∷ [];
  client_session_id = 7 ∷ [];
  client_peer = "alice";
  route = route;
  data_envelope = record { kind = "data_plane"; session_id = 7 ∷ []; frame = [] };
  packet = some packet;
}

abbrev calls : List Op
calls = connect ∷ establish ∷ number 4 ∷ number 4 ∷ forward (1 ∷ []) client_to_exit ∷ number 6 ∷ []

abbrev busy : ForwardingContext String
busy = run toy calls context

validate_message_iff_example :
    (validate_message toy message context ≡ ok tt) ↔ Matches toy message context
validate_message_iff_example = validate_message_iff toy message context

abbrev ended : ForwardingContext String
ended = (transition_closing toy busy).0

ends : transition_closing toy busy ≡ (ended, ok tt)
unfolding transition_closing run apply transition_connecting transition_established transition
    begin_forwarding is_repeated accept_sequence is_violation
ends = refl

accepted_numbers-RisingFrom_example : RisingFrom 1 (accepted_numbers toy calls context)
accepted_numbers-RisingFrom_example = accepted_numbers-RisingFrom toy calls context
