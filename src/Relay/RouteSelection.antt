-- ===== src/Relay/RouteSelection.antt =====
-- relay/src/routing.rs: the choice of a route among the candidates. `RouteMode` is
-- network/src/config.rs.
pub mod Eligibility
pub mod Choice
use real_layer.Base.Bytes.{Bytes}
use real_layer.Base.Text.{as_bytes}
use real_layer.Base.{
  ℕ, ◌/◌, ◌%◌, ◌^◌, String, List, [], ◌∷◌, Option, none, some, Bool, true, false, not, ◌&&◌, ◌||◌,
  Result, ok, err, ◌==◌, nat_eq, string_eq, all, any, filter, length, if◌then◌else◌, Eq,
}
use real_layer.Network.Session.Primitives.{Primitives}
use real_layer.Relay.State.{online, HealthClass, healthy, status_eq}
use real_layer.Relay.Candidates.{Addresses, RelayCandidate, member, rank}

pub data RouteMode : Type 0 where
  one_hop two_hop : RouteMode

pub record RelayHop (P M : Type 0) : Type 0 where
  pub peer_id : P
  pub address : M
  pub capabilities : List String
  pub health : HealthClass
  pub latency_ms : Option ℕ
  pub protocol_version : String
  pub software_version : String

pub data Route (P M : Type 0) : Type 0 where
  one_hop_route : (relay : RelayHop P M) → Route P M
  two_hop_route : (entry exit : RelayHop P M) → Route P M

pub record RouteSelectionPolicy : Type 0 where
  pub mode : RouteMode
  pub required_transport : String
  pub required_capabilities : List String

-- `select` makes no `InvalidCandidate`.
pub data RouteSelectionError (P : Type 0) : Type 0 where
  no_eligible_relay : RouteSelectionError P
  insufficient_relays : (eligible : ℕ) → RouteSelectionError P
  invalid_candidate : (peer_id : P) → (reason : String) → RouteSelectionError P

-- `impl From<&RelayCandidate> for RelayHop`
unfoldable pub hop_of : {P M : Type 0} → RelayCandidate P M → RelayHop P M
hop_of c = record {
  peer_id = c.peer_id;
  address = c.address;
  capabilities = c.capabilities;
  health = c.health;
  latency_ms = elim c.latency [ none ↦ none | some latency ↦ some (latency / 1000000 % 2 ^ 64) ];
  protocol_version = c.protocol_version;
  software_version = c.software_version;
}

abbrev pub is_healthy : HealthClass → Bool
is_healthy healthy = true
is_healthy class = false

-- `str::contains`, on the bytes.
unfoldable pub starts_with : (pattern text : Bytes) → Bool
starts_with [] text = true
starts_with (p ∷ ps) [] = false
starts_with (p ∷ ps) (b ∷ bs) = p == b && starts_with ps bs

unfoldable pub contains_bytes : (pattern text : Bytes) → Bool
unfolding starts_with
contains_bytes pattern [] = starts_with pattern []
contains_bytes pattern (b ∷ bs) = starts_with pattern (b ∷ bs) || contains_bytes pattern bs

module _ (lib : Primitives) (addresses : Addresses) where
  open lib use {PeerId}
  open addresses use {Multiaddr}

  instance abbrev pub peers : Eq PeerId
  peers = lib.peer_eq

  abbrev pub Candidate : Type 0
  Candidate = RelayCandidate PeerId Multiaddr

  -- The filters of `select`.
  unfoldable pub is_eligible : (client_peer_id : PeerId) → RouteSelectionPolicy → Candidate → Bool
  unfolding contains_bytes
  is_eligible client_peer_id policy c =
      not (c.peer_id == client_peer_id)
      && c.status == online
      && is_healthy c.health
      && contains_bytes (as_bytes "/quic-v1") (as_bytes (addresses.to_string c.address))
      && member policy.required_transport c.capabilities
      && all (λ required. member required c.capabilities) policy.required_capabilities

  -- The route over the ranked candidates that are left.
  unfoldable pub route_over :
      RouteMode → List Candidate → Result (RouteSelectionError PeerId) (Route PeerId Multiaddr)
  unfolding hop_of
  route_over mode [] = err no_eligible_relay
  route_over one_hop (c ∷ cs) = ok (one_hop_route (hop_of c))
  route_over two_hop (c ∷ []) = err (insufficient_relays 1)
  route_over two_hop (c ∷ d ∷ cs) =
      if c.peer_id == d.peer_id
      then err (insufficient_relays (length (c ∷ d ∷ cs)))
      else ok (two_hop_route (hop_of c) (hop_of d))

  unfoldable pub select :
      (client_peer_id : PeerId)
      → List Candidate
      → RouteSelectionPolicy
      → (now : ℕ) → Result (RouteSelectionError PeerId) (Route PeerId Multiaddr)
  unfolding is_eligible route_over
  select client_peer_id candidates policy now =
      route_over policy.mode
        (rank lib addresses (filter (is_eligible client_peer_id policy) candidates) now)
