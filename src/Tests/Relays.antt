-- ===== src/Tests/Relays.antt =====
-- Relays: their core, what they record, and how clients choose among them.
use mathlib.Core.List.{Perm}
use real_layer.Base.Text.{as_bytes}
use real_layer.Base.{
  ℕ, ◌≡◌, ◌-◌, refl, String, List, [], ◌∷◌, some, none, ok, true, string_eq, list_eq, nat_eq, drop,
  length, arith,
}
use real_layer.Relay.Core.{RelayResourceLimits, new, discovering, ready, draining}
use real_layer.Relay.Core.Calls.{
  Call, transition_to, admits_peer, admits_session, admits_flow, removes_peer, run,
}
use real_layer.Relay.Core.Counts.{IsAccounted}
use real_layer.Relay.Core.Admission.{run-IsAccounted}
use real_layer.Relay.Core.Lifecycle.{Later, run-Later}
use real_layer.Relay.State.{RelayState, LatencyMeasurement, online, starting, healthy, status_eq}
use real_layer.Relay.State.Records.{record_all, record_latency-keeps}
use real_layer.Relay.Candidates.{
  Addresses, RelayMetadata, RelayCandidate, CandidateRequirements, from_metadata, validate,
  candidate_of, rank, compare_candidates, duration_since, is_stale, address_text, find_missing,
  refuse_missing, sort_by, insert_by, then_with, compare_bytes, status_rank, health_rank,
  latency_rank, freshness_rank,
}
use real_layer.Relay.Candidates.Eligibility.{IsOffer, from_metadata-IsOffer}
use real_layer.Relay.Candidates.Ranking.{IsRanked, rank-IsSorted}
use real_layer.Relay.RouteSelection.{
  RouteMode, two_hop, Route, two_hop_route, RouteSelectionPolicy, hop_of, select, is_eligible,
  route_over, starts_with, contains_bytes,
}
use real_layer.Relay.RouteSelection.Choice.{IsChoice, select-IsChoice}
use real_layer.Tests.Instances.{toy}

abbrev limits : RelayResourceLimits
limits = record {
  maximum_connected_peers = 1;
  maximum_active_sessions = 2;
  maximum_active_flows = 2;
  maximum_queued_packets = 16;
  maximum_exit_connections = 2;
  session_timeout = 60;
  flow_timeout = 60;
}

abbrev calls : List (Call String)
calls =
    transition_to discovering
    ∷ admits_peer "bob"
    ∷ admits_peer "carol"
    ∷ transition_to ready
    ∷ admits_session (7 ∷ [])
    ∷ admits_flow (7 ∷ []) 100
    ∷ transition_to draining
    ∷ removes_peer "bob"
    ∷ admits_peer "carol"
    ∷ []

run-IsAccounted_example : IsAccounted limits (run calls (new "alice" limits))
run-IsAccounted_example = run-IsAccounted "alice" limits calls

run-Later_example : Later (new "alice" limits) (run calls (new "alice" limits))
run-Later_example = run-Later calls (new "alice" limits)

abbrev measured : ℕ → LatencyMeasurement String
measured d = record { peer_id = "bob"; timestamp = 5; round_trip = some d; success = true }

abbrev samples : List (LatencyMeasurement String)
samples = measured 3 ∷ measured 4 ∷ []

abbrev state : RelayState String
state = record {
  peer_id = "alice";
  started_at = 0;
  status = starting;
  listening_address = none;
  advertised_address = none;
  active_peers = [];
  last_heartbeat = none;
  total_successful_connections = 0;
  total_failed_connections = 0;
  latency_measurements = [];
  software_version = "1";
}

record_latency-keeps_example :
    (record_all samples state).latency_measurements ≡ drop (length samples - 100) samples
record_latency-keeps_example = record_latency-keeps samples state refl

-- Every text is an address.
abbrev texts : Addresses
texts = record { Multiaddr = String; parse = λ t. some t; to_string = λ t. t }

abbrev metadata : RelayMetadata String
metadata = record {
  peer_id = "bob";
  protocol_version = "1";
  software_version = "1";
  supported_transports = "quic" ∷ [];
  capabilities = "quic" ∷ "relay" ∷ [];
  listening_address = some "/quic-v1";
  advertised_address = none;
  status = online;
  health = healthy;
  latency_ms = some 4;
  timestamp = 90;
  last_heartbeat = some 95;
}

abbrev requirements : CandidateRequirements
requirements = record {
  protocol_version = "1";
  required_transport = "quic";
  required_capabilities = "relay" ∷ [];
  heartbeat_freshness = 30;
}

abbrev bob : RelayCandidate String String
bob = candidate_of toy texts metadata "/quic-v1"

abbrev carol : RelayCandidate String String
carol =
    candidate_of toy texts (record metadata { peer_id = "carol"; latency_ms = some 3 }) "/quic-v1"

offered : from_metadata toy texts metadata requirements 100 ≡ ok bob
unfolding from_metadata validate duration_since is_stale address_text find_missing refuse_missing
offered = refl

from_metadata-IsOffer_example :
    IsOffer metadata requirements 100
    × ((text : String) × (a : String) × (address_text metadata ≡ some text)
        × (some text ≡ some a)
        × (bob ≡ candidate_of toy texts metadata a))
from_metadata-IsOffer_example =
    from_metadata-IsOffer toy texts metadata requirements 100 bob offered

rank-IsSorted_example :
    IsRanked toy texts 100 (rank toy texts (bob ∷ carol ∷ []) 100)
    × Perm (rank toy texts (bob ∷ carol ∷ []) 100) (bob ∷ carol ∷ [])
rank-IsSorted_example = rank-IsSorted toy texts (bob ∷ carol ∷ []) 100 (omega arith)

abbrev policy : RouteMode → RouteSelectionPolicy
policy mode = record {
  mode = mode;
  required_transport = "quic";
  required_capabilities = "relay" ∷ [];
}

abbrev chosen : Route String String
chosen = two_hop_route (hop_of carol) (hop_of bob)

selected : select toy texts "alice" (bob ∷ carol ∷ []) (policy two_hop) 100 ≡ ok chosen
unfolding select is_eligible route_over contains_bytes starts_with as_bytes rank sort_by insert_by
    compare_candidates then_with compare_bytes status_rank health_rank latency_rank freshness_rank
    duration_since candidate_of hop_of
selected = refl

select-IsChoice_example : IsChoice toy texts "alice" (bob ∷ carol ∷ []) (policy two_hop) 100 chosen
select-IsChoice_example =
    select-IsChoice toy texts "alice" (bob ∷ carol ∷ []) (policy two_hop) 100 chosen selected
