-- ===== src/Relay/Candidates.antt =====
-- relay/src/metadata.rs and relay/src/candidate.rs: what a relay advertises, which advertisements
-- make a candidate, and the order of candidates. Instants and durations are numbers of nanoseconds.
-- libp2p's addresses are the parameter `Addresses`; the texts of errors are constructors.
pub mod Eligibility
pub mod Order
pub mod Precedence
pub mod Ranking
use Prim.Native.Nat.{compare, Ordering}
use real_layer.Base.Bytes.{Bytes}
use real_layer.Base.Text.{as_bytes}
use real_layer.Base.Map.{keep}
use real_layer.Base.{
  ℕ, zero, suc, ◌+◌, ◌-◌, ◌*◌, ◌^◌, ◌≡◌, String, List, [], ◌∷◌, Option, none, some, Bool, true,
  false, not, ◌&&◌, ◌||◌, Result, ok, err, ◌>>=◌, ◌>>◌, reject, ensure, ok_or, map_err, ◌==◌,
  nat_eq, string_eq, leb, ltb, all, any, if◌then◌else◌, Eq,
}
use real_layer.Network.Session.Primitives.{Primitives}
use real_layer.Relay.State.{
  RelayStatus, online, offline, HealthClass, healthy, degraded_health, unhealthy, status_eq,
  status_beq,
}

pub record Addresses : Type 1 where
  pub Multiaddr : Type 0
  pub parse : String → Option Multiaddr
  pub to_string : Multiaddr → String

pub record RelayMetadata (P : Type 0) : Type 0 where
  pub peer_id : P
  pub protocol_version : String
  pub software_version : String
  pub supported_transports : List String
  pub capabilities : List String
  pub listening_address : Option String
  pub advertised_address : Option String
  pub status : RelayStatus
  pub health : HealthClass
  pub latency_ms : Option ℕ
  pub timestamp : ℕ
  pub last_heartbeat : Option ℕ

pub data MetadataError : Type 0 where
  unsupported_protocol : String → MetadataError
  future_timestamp stale_timestamp stale_heartbeat no_address invalid_address : MetadataError
  unknown_transport unknown_capability : MetadataError

pub record RelayCandidate (P M : Type 0) : Type 0 where
  pub peer_id : P
  pub address : M
  pub status : RelayStatus
  pub health : HealthClass
  pub latency : Option ℕ
  pub capabilities : List String
  pub protocol_version : String
  pub software_version : String
  pub last_seen : ℕ

pub record CandidateRequirements : Type 0 where
  pub protocol_version : String
  pub required_transport : String
  pub required_capabilities : List String
  pub heartbeat_freshness : ℕ

pub data RelayCandidateError : Type 0 where
  invalid_metadata : MetadataError → RelayCandidateError
  relay_offline transport_unavailable : RelayCandidateError
  capability_unavailable : (missing : String) → RelayCandidateError

-- `SystemTime::duration_since`
unfoldable pub duration_since : (now earlier : ℕ) → Option ℕ
duration_since now earlier = if leb earlier now then some (now - earlier) else none

-- `slice::contains`, on texts.
abbrev pub member : String → List String → Bool
member x xs = any (λ y. y == x) xs

abbrev pub known_capabilities : List String
known_capabilities =
    "quic" ∷ "relay" ∷ "one_hop" ∷ "two_hop" ∷ "entry_role" ∷ "exit_role" ∷ "tcp_exit" ∷ "udp_exit"
    ∷ "dns_forwarding" ∷ "tun_boundary" ∷ "health_reporting" ∷ []

-- `is_some_and` of the heartbeat: the instant is in the future or too long ago.
unfoldable pub is_stale : Option ℕ → (now freshness : ℕ) → Bool
unfolding duration_since
is_stale none now freshness = false
is_stale (some timestamp) now freshness = elim (duration_since now timestamp) [
  | none ↦ true
  | some age ↦ ltb freshness age
]

unfoldable pub address_text : {P : Type 0} → RelayMetadata P → Option String
address_text m = elim m.advertised_address [ none ↦ m.listening_address | some a ↦ some a ]

-- The first required capability that is not offered.
unfoldable pub find_missing : (required offered : List String) → Option String
find_missing [] offered = none
find_missing (c ∷ cs) offered =
    let rest = find_missing cs offered in if member c offered then rest else some c

-- `Duration::from_secs(u64::MAX)`
abbrev pub duration_max : ℕ
duration_max = (2 ^ 64 - 1) * 1000000000

-- `Ordering::then_with`
unfoldable pub then_with : Ordering → Ordering → Ordering
then_with Ordering.lt o = Ordering.lt
then_with Ordering.eq o = o
then_with Ordering.gt o = Ordering.gt

-- `str::cmp`: the order of the bytes.
unfoldable pub compare_bytes : Bytes → Bytes → Ordering
unfolding then_with
compare_bytes [] [] = Ordering.eq
compare_bytes [] (y ∷ ys) = Ordering.lt
compare_bytes (x ∷ xs) [] = Ordering.gt
compare_bytes (x ∷ xs) (y ∷ ys) = then_with (compare x y) (compare_bytes xs ys)

unfoldable pub status_rank : RelayStatus → ℕ
status_rank status = if status == online then 1 else 0

unfoldable pub health_rank : HealthClass → ℕ
health_rank healthy = 2
health_rank degraded_health = 1
health_rank unhealthy = 0

unfoldable pub latency_rank : Option ℕ → ℕ
latency_rank none = duration_max
latency_rank (some latency) = latency

unfoldable pub freshness_rank : (timestamp now : ℕ) → ℕ
unfolding duration_since
freshness_rank timestamp now = elim (duration_since now timestamp) [
  | none ↦ duration_max
  | some age ↦ age
]

-- `sort_by`, which is stable: a new element goes before the first that is greater.
abbrev pub is_gt : Ordering → Bool
is_gt Ordering.gt = true
is_gt o = false

unfoldable pub insert_by {ℓ} : {A : Type ℓ} → (A → A → Ordering) → A → List A → List A
insert_by cmp x [] = x ∷ []
insert_by cmp x (y ∷ ys) =
    let rest = insert_by cmp x ys in if is_gt (cmp x y) then y ∷ rest else x ∷ y ∷ ys

unfoldable pub sort_by {ℓ} : {A : Type ℓ} → (A → A → Ordering) → List A → List A
unfolding insert_by
sort_by cmp [] = []
sort_by cmp (x ∷ xs) = insert_by cmp x (sort_by cmp xs)

module _ (lib : Primitives) (addresses : Addresses) where
  open lib use {PeerId}
  open addresses use {Multiaddr}

  unfoldable pub validate :
      (expected_protocol : String)
      → (now freshness : ℕ) → RelayMetadata PeerId
      → Result MetadataError (Unit {0})
  unfolding duration_since is_stale address_text
  validate expected_protocol now freshness m = do
    ensure (m.protocol_version == expected_protocol) (unsupported_protocol m.protocol_version)
    age ← ok_or (duration_since now m.timestamp) future_timestamp
    reject (ltb freshness age) stale_timestamp
    reject (is_stale m.last_heartbeat now freshness) stale_heartbeat
    text ← ok_or (address_text m) no_address
    address ← ok_or (addresses.parse text) invalid_address
    reject (any (λ transport. not (transport == "quic")) m.supported_transports) unknown_transport
    reject (any (λ capability. not (member capability known_capabilities)) m.capabilities)
        unknown_capability

  -- The candidate before the checks that follow.
  unfoldable pub candidate_of : RelayMetadata PeerId → Multiaddr → RelayCandidate PeerId Multiaddr
  candidate_of m address = record {
    peer_id = m.peer_id;
    address = address;
    status = m.status;
    health = m.health;
    latency = elim m.latency_ms [ none ↦ none | some ms ↦ some (ms * 1000000) ];
    capabilities = m.capabilities;
    protocol_version = m.protocol_version;
    software_version = m.software_version;
    last_seen = m.timestamp;
  }

  -- `if let Some(missing) = …`
  unfoldable pub refuse_missing : Option String → Result RelayCandidateError (Unit {0})
  refuse_missing none = ok tt
  refuse_missing (some missing) = err (capability_unavailable missing)

  unfoldable pub from_metadata :
      RelayMetadata PeerId
      → CandidateRequirements
      → (now : ℕ) → Result RelayCandidateError (RelayCandidate PeerId Multiaddr)
  unfolding validate candidate_of address_text find_missing refuse_missing
  from_metadata m requirements now = do
    map_err invalid_metadata
        (validate requirements.protocol_version now requirements.heartbeat_freshness m)
    text ← ok_or (address_text m) (invalid_metadata no_address)
    address ← ok_or (addresses.parse text) (invalid_metadata invalid_address)
    reject (m.status == offline) relay_offline
    ensure (member requirements.required_transport m.supported_transports) transport_unavailable
    refuse_missing (find_missing requirements.required_capabilities m.capabilities)
    ok (candidate_of m address)

  -- `RelayRanking::compare`
  unfoldable pub compare_candidates :
      (now : ℕ) → (left right : RelayCandidate PeerId Multiaddr) → Ordering
  unfolding then_with compare_bytes status_rank health_rank latency_rank freshness_rank
  compare_candidates now left right =
      then_with (compare (health_rank right.health) (health_rank left.health)) (
        then_with (compare (status_rank right.status) (status_rank left.status)) (
          then_with (compare (latency_rank left.latency) (latency_rank right.latency)) (
            then_with
              (compare (freshness_rank right.last_seen now) (freshness_rank left.last_seen now))
              (compare_bytes (as_bytes (lib.to_string left.peer_id))
                (as_bytes (lib.to_string right.peer_id))))))

  unfoldable pub rank :
      List (RelayCandidate PeerId Multiaddr) → (now : ℕ) → List (RelayCandidate PeerId Multiaddr)
  unfolding compare_candidates sort_by
  rank candidates now = sort_by (compare_candidates now) candidates
