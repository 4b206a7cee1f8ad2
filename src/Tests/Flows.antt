-- ===== src/Tests/Flows.antt =====
-- A relay with one circuit.
use real_layer.Base.{String, ◌≡◌, ◌↔◌, List, [], ◌∷◌, none, some, ok, string_eq, list_eq, nat_eq}
use real_layer.Base.Map.{get}
use real_layer.Network.Session.Types.{RouteBinding, two_hop}
use real_layer.Relay.Forwarding.{ForwardingContext, ForwardingMessage}
use real_layer.Relay.Forwarding.Messages.{Matches, initial}
use real_layer.Relay.ForwardingManager.{ForwardingManager, validate_flow}
use real_layer.Relay.ForwardingManager.Flows.{Op, admit_it, remove_it, run, validate_flow_iff}
use real_layer.Tests.Instances.{toy}

abbrev route : RouteBinding String
route = two_hop "bob" "carol" "10.0.0.9:4001"

abbrev circuit : ForwardingContext String
circuit = initial toy (5 ∷ []) (7 ∷ []) "alice" "bob" "carol" route

abbrev message : ForwardingMessage String
message = record {
  kind = "ghost_layer_forwarding";
  forwarding_id = 5 ∷ [];
  client_session_id = 7 ∷ [];
  client_peer = "alice";
  route = route;
  data_envelope = record { kind = "data_plane"; session_id = 7 ∷ []; frame = [] };
  packet = none;
}

abbrev calls : List (Op String)
calls = admit_it circuit ∷ admit_it circuit ∷ remove_it (6 ∷ []) ∷ []

abbrev fresh : ForwardingManager String
fresh = record { contexts = []; maximum_flows = 2 }

validate_flow_iff_example :
    (validate_flow toy message (run toy calls fresh) ≡ ok circuit)
    ↔ ((get (5 ∷ []) (run toy calls fresh).contexts ≡ some circuit) × Matches toy message circuit)
validate_flow_iff_example = validate_flow_iff toy message (run toy calls fresh) circuit
