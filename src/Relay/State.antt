-- ===== src/Relay/State.antt =====
-- relay/src/state.rs, relay/src/health.rs and relay/src/heartbeat.rs: what a relay records of itself
-- and how it rates its health. Instants and durations are numbers. The texts of addresses that an
-- event carries are those of its event; `NetworkEvent` is network/src/peer.rs.
pub mod Records
pub mod Ratings
use real_layer.Base.{
  ℕ, suc, ◌+◌, ◌-◌, ◌%◌, ◌^◌, ◌≡◌, ◌↔◌, String, List, [], ◌∷◌, ◌++◌, Option, none, some, Bool, true,
  false, not, ◌&&◌, ◌||◌, Result, ok, err, arith, Eq, ◌==◌, nat_eq, leb, ltb, length, drop,
  if◌then◌else◌,
}
use real_layer.Base.Map.{Map, insert, remove, contains_key}

pub data RelayStatus : Type 0 where
  starting online degraded offline shutting_down : RelayStatus

abbrev pub status_beq : RelayStatus → RelayStatus → Bool
status_beq starting starting = true
status_beq online online = true
status_beq degraded degraded = true
status_beq offline offline = true
status_beq shutting_down shutting_down = true
status_beq a b = false

pub status_beq_iff : (a b : RelayStatus) → (status_beq a b ≡ true) ↔ (a ≡ b)
status_beq_iff a b = ground arith

instance abbrev pub status_eq : Eq RelayStatus
status_eq = record { beq = status_beq; beq_iff = status_beq_iff }

pub data HealthClass : Type 0 where
  healthy degraded_health unhealthy : HealthClass

abbrev pub max_latency_samples : ℕ
max_latency_samples = 100

pub record LatencyMeasurement (P : Type 0) : Type 0 where
  pub peer_id : P
  pub timestamp : ℕ
  pub round_trip : Option ℕ
  pub success : Bool

pub data NetworkEvent (P : Type 0) : Type 0 where
  listening : (address : String) → NetworkEvent P
  peer_connected peer_disconnected peer_identified : P → NetworkEvent P
  ping_result : P → Result String ℕ → NetworkEvent P
  network_error : NetworkEvent P
  discovery_request discovery_response : NetworkEvent P

pub record RelayState (P : Type 0) : Type 0 where
  pub peer_id : P
  pub started_at : ℕ
  pub status : RelayStatus
  pub listening_address : Option String
  pub advertised_address : Option String
  pub active_peers : Map P (Unit {0})
  pub last_heartbeat : Option ℕ
  pub total_successful_connections : ℕ
  pub total_failed_connections : ℕ
  pub latency_measurements : List (LatencyMeasurement P)
  pub software_version : String

pub record HealthThresholds : Type 0 where
  pub heartbeat_freshness : ℕ
  pub degraded_latency : ℕ

pub record RelayHealth : Type 0 where
  pub class : HealthClass
  pub latency : Option ℕ
  pub heartbeat_fresh : Bool

pub record RelayHeartbeat (P : Type 0) : Type 0 where
  pub peer_id : P
  pub timestamp : ℕ
  pub status : RelayStatus
  pub uptime : ℕ
  pub active_peer_count : ℕ
  pub latency : Option ℕ
  pub software_version : String

-- `iter().filter_map(|m| m.round_trip).last()`
unfoldable pub last_round_trip : {P : Type 0} → List (LatencyMeasurement P) → Option ℕ
last_round_trip [] = none
last_round_trip (m ∷ ms) = elim (last_round_trip ms) [ none ↦ m.round_trip | some d ↦ some d ]

abbrev pub round_trip_of : Result String ℕ → Option ℕ
round_trip_of (ok d) = some d
round_trip_of (err e) = none

abbrev pub is_ok : Result String ℕ → Bool
is_ok (ok d) = true
is_ok (err e) = false

-- `duration_since` of a later instant is an error, and counts as 0 here.
unfoldable pub is_fresh : Option ℕ → (now freshness : ℕ) → Bool
is_fresh none now freshness = false
is_fresh (some timestamp) now freshness = leb (now - timestamp) freshness

unfoldable pub is_slow : Option ℕ → (limit : ℕ) → Bool
is_slow none limit = false
is_slow (some latency) limit = ltb limit latency

abbrev pub is_known : Option ℕ → Bool
is_known none = false
is_known (some timestamp) = true

module _ {P : Type 0} ⦃e : Eq P⦄ where
  unfoldable pub new_state :
      (now : ℕ)
      → P
      → (advertised_address : Option String) → (software_version : String) → RelayState P
  new_state now peer_id advertised_address software_version = record {
    peer_id = peer_id;
    started_at = now;
    status = starting;
    listening_address = none;
    advertised_address = advertised_address;
    active_peers = [];
    last_heartbeat = none;
    total_successful_connections = 0;
    total_failed_connections = 0;
    latency_measurements = [];
    software_version = software_version;
  }

  unfoldable pub mark_heartbeat : ℕ → RelayState P → RelayState P
  mark_heartbeat timestamp s = record s { last_heartbeat = some timestamp }

  unfoldable pub set_status : RelayStatus → RelayState P → RelayState P
  set_status status s = record s { status = status }

  -- The newest measurement stands last.
  unfoldable pub record_latency : LatencyMeasurement P → RelayState P → RelayState P
  record_latency m s =
      let kept =
        if length s.latency_measurements == max_latency_samples
        then drop 1 s.latency_measurements
        else s.latency_measurements in
      record s { latency_measurements = kept ++ m ∷ [] }

  unfoldable pub count_failure : RelayState P → RelayState P
  count_failure s = record s {
    total_failed_connections = (s.total_failed_connections + 1) % 2 ^ 64;
  }

  -- The peer is new where `insert` returns true.
  unfoldable pub connect_peer : P → RelayState P → RelayState P
  connect_peer peer s = record s {
    active_peers = insert peer tt s.active_peers;
    total_successful_connections =
        if contains_key peer s.active_peers
        then s.total_successful_connections
        else (s.total_successful_connections + 1) % 2 ^ 64;
    status = online;
  }

  unfoldable pub record_ping : P → Result String ℕ → (timestamp : ℕ) → RelayState P → RelayState P
  unfolding record_latency count_failure
  record_ping peer result timestamp s =
      let s' =
        record_latency
          (record {
            peer_id = peer;
            timestamp = timestamp;
            round_trip = round_trip_of result;
            success = is_ok result;
          })
          s in
      if is_ok result then s' else count_failure s'

  unfoldable pub apply_network_event :
      NetworkEvent P → (timestamp : ℕ) → RelayState P → RelayState P
  unfolding connect_peer record_ping count_failure
  apply_network_event (listening address) timestamp s = record s {
    listening_address = some address;
    status = online;
  }
  apply_network_event (peer_connected peer) timestamp s = connect_peer peer s
  apply_network_event (peer_disconnected peer) timestamp s = record s {
    active_peers = remove peer s.active_peers;
  }
  apply_network_event (ping_result peer result) timestamp s = record_ping peer result timestamp s
  apply_network_event network_error timestamp s = count_failure s
  apply_network_event (peer_identified peer) timestamp s = s
  apply_network_event discovery_request timestamp s = s
  apply_network_event discovery_response timestamp s = s

  unfoldable pub evaluate : RelayState P → HealthThresholds → (now : ℕ) → RelayHealth
  unfolding last_round_trip is_fresh is_slow
  evaluate s thresholds now =
      let heartbeat_fresh = is_fresh s.last_heartbeat now thresholds.heartbeat_freshness in
      let latency = last_round_trip s.latency_measurements in
      let connectivity_ok = ltb 0 (length s.active_peers) || s.total_successful_connections == 0 in
      record {
        class =
            if s.status == offline
              || s.status == shutting_down
              || (not heartbeat_fresh && is_known s.last_heartbeat)
              || not connectivity_ok
            then unhealthy
            else if is_slow latency thresholds.degraded_latency || s.status == degraded
            then degraded_health
            else healthy;
        latency = latency;
        heartbeat_fresh = heartbeat_fresh;
      }

  -- `uptime` reads the clock once more, and is 0 if the clock went back.
  unfoldable pub from_state : RelayState P → (timestamp now : ℕ) → RelayState P × RelayHeartbeat P
  unfolding mark_heartbeat last_round_trip
  from_state s timestamp now = (
    mark_heartbeat timestamp s,
    record {
      peer_id = s.peer_id;
      timestamp = timestamp;
      status = s.status;
      uptime = now - s.started_at;
      active_peer_count = length s.active_peers;
      latency = last_round_trip s.latency_measurements;
      software_version = s.software_version;
    },
  )
