-- ===== src/Relay/Core.antt =====
-- relay/src/core.rs: the admission of peers, sessions and flows, and the lifecycle of a relay. A
-- `HashSet` is a map to the unit type. The counters that no operation here changes are left out of
-- the metrics, and so are the texts and the start time that only `operational_state` reports.
-- `metrics_mut`, which hands the metrics out to be written, is left out: the relay's program uses it
-- for the counter `session_errors` alone, which is one of those.
pub mod Calls
pub mod Counts
pub mod Admission
pub mod Lifecycle
use real_layer.Base.{
  ℕ, ◌+◌, ◌-◌, ◌%◌, ◌^◌, ◌≡◌, ◌↔◌, String, Bool, true, false, not, ◌&&◌, ◌||◌, Result, ok, err,
  arith, Eq, ◌==◌, list_eq, nat_eq, leb, ltb, length, if◌then◌else◌, [],
}
use real_layer.Base.Map.{Map, insert, remove, contains_key}
use real_layer.Network.Session.Types.{SessionId}

pub data RelayLifecycle : Type 0 where
  starting discovering ready draining shutting_down stopped : RelayLifecycle

abbrev pub lifecycle_beq : RelayLifecycle → RelayLifecycle → Bool
lifecycle_beq starting starting = true
lifecycle_beq discovering discovering = true
lifecycle_beq ready ready = true
lifecycle_beq draining draining = true
lifecycle_beq shutting_down shutting_down = true
lifecycle_beq stopped stopped = true
lifecycle_beq a b = false

pub lifecycle_beq_iff : (a b : RelayLifecycle) → (lifecycle_beq a b ≡ true) ↔ (a ≡ b)
lifecycle_beq_iff a b = ground arith

instance abbrev pub lifecycle_eq : Eq RelayLifecycle
lifecycle_eq = record { beq = lifecycle_beq; beq_iff = lifecycle_beq_iff }

pub data RelayCoreError : Type 0 where
  invalid_transition : RelayLifecycle → (operation : String) → RelayCoreError
  peer_limit session_limit flow_limit : RelayCoreError

pub record RelayMetrics : Type 0 where
  pub active_peers : ℕ
  pub active_sessions : ℕ
  pub active_flows : ℕ
  pub packets_accepted : ℕ
  pub packets_rejected : ℕ
  pub bytes_forwarded : ℕ

pub record RelayResourceLimits : Type 0 where
  pub maximum_connected_peers : ℕ
  pub maximum_active_sessions : ℕ
  pub maximum_active_flows : ℕ
  pub maximum_queued_packets : ℕ
  pub maximum_exit_connections : ℕ
  pub session_timeout : ℕ
  pub flow_timeout : ℕ

abbrev pub Set : Type 0 → Type 0
Set K = Map K (Unit {0})

pub record RelayCore (P : Type 0) : Type 0 where
  pub peer_id : P
  pub limits : RelayResourceLimits
  pub lifecycle : RelayLifecycle
  pub peers : Set P
  pub sessions : Set SessionId
  pub flows : Set SessionId
  pub metrics : RelayMetrics

-- `u64::saturating_add`
unfoldable pub saturating_add : ℕ → ℕ → ℕ
saturating_add a b = if ltb (a + b) (2 ^ 64) then a + b else 2 ^ 64 - 1

-- The pairs of the `matches!` in `transition`.
unfoldable pub is_transition : RelayLifecycle → RelayLifecycle → Bool
is_transition starting discovering = true
is_transition discovering ready = true
is_transition ready draining = true
is_transition ready shutting_down = true
is_transition draining shutting_down = true
is_transition shutting_down stopped = true
is_transition draining draining = true
is_transition shutting_down shutting_down = true
is_transition stopped stopped = true
is_transition a b = false

unfoldable pub is_admitting : RelayLifecycle → Bool
is_admitting l = l == ready || l == discovering

abbrev pub Answer : Type 0 → Type 0
Answer P = RelayCore P × Result RelayCoreError (Unit {0})

module _ {P : Type 0} ⦃e : Eq P⦄ where
  unfoldable pub new : P → RelayResourceLimits → RelayCore P
  new peer_id limits = record {
    peer_id = peer_id;
    limits = limits;
    lifecycle = starting;
    peers = [];
    sessions = [];
    flows = [];
    metrics = record {
      active_peers = 0;
      active_sessions = 0;
      active_flows = 0;
      packets_accepted = 0;
      packets_rejected = 0;
      bytes_forwarded = 0;
    };
  }

  unfoldable pub transition : RelayLifecycle → RelayCore P → Answer P
  transition next c =
      if is_transition c.lifecycle next
      then (record c { lifecycle = next }, ok tt)
      else (c, err (invalid_transition c.lifecycle "lifecycle transition"))

  unfoldable pub set_peers : Set P → RelayCore P → RelayCore P
  set_peers peers c = record c {
    peers = peers;
    metrics = record c.metrics { active_peers = length peers };
  }

  unfoldable pub set_sessions : Set SessionId → RelayCore P → RelayCore P
  set_sessions sessions c = record c {
    sessions = sessions;
    metrics = record c.metrics { active_sessions = length sessions };
  }

  unfoldable pub set_flows : Set SessionId → RelayCore P → RelayCore P
  set_flows flows c = record c {
    flows = flows;
    metrics = record c.metrics { active_flows = length flows };
  }

  unfoldable pub admit_peer : P → RelayCore P → Answer P
  unfolding is_admitting set_peers
  admit_peer peer c =
      if contains_key peer c.peers
      then (c, ok tt)
      else if not (is_admitting c.lifecycle)
      then (c, err (invalid_transition c.lifecycle "admit peer"))
      else if leb c.limits.maximum_connected_peers (length c.peers)
      then (c, err peer_limit)
      else (set_peers (insert peer tt c.peers) c, ok tt)

  unfoldable pub remove_peer : P → RelayCore P → RelayCore P
  unfolding set_peers
  remove_peer peer c = set_peers (remove peer c.peers) c

  unfoldable pub admit_session : SessionId → RelayCore P → Answer P
  unfolding is_admitting set_sessions
  admit_session session c =
      if not (is_admitting c.lifecycle)
      then (c, err (invalid_transition c.lifecycle "admit session"))
      else if leb c.limits.maximum_active_sessions (length c.sessions)
      then (c, err session_limit)
      else (set_sessions (insert session tt c.sessions) c, ok tt)

  unfoldable pub remove_session : SessionId → RelayCore P → RelayCore P
  unfolding set_sessions set_flows
  remove_session session c =
      let c' = set_sessions (remove session c.sessions) c in set_flows (remove session c'.flows) c'

  -- The counters of an admitted flow.
  unfoldable pub count_packet : (bytes : ℕ) → RelayCore P → RelayCore P
  unfolding saturating_add
  count_packet bytes c = record c {
    metrics = record c.metrics {
      packets_accepted = (c.metrics.packets_accepted + 1) % 2 ^ 64;
      bytes_forwarded = saturating_add c.metrics.bytes_forwarded bytes;
    };
  }

  unfoldable pub admit_flow : SessionId → (bytes : ℕ) → RelayCore P → Answer P
  unfolding set_flows count_packet
  admit_flow flow bytes c =
      if contains_key flow c.flows
      then (c, ok tt)
      else if leb c.limits.maximum_active_flows (length c.flows)
      then (c, err flow_limit)
      else (count_packet bytes (set_flows (insert flow tt c.flows) c), ok tt)

  unfoldable pub remove_flow : SessionId → RelayCore P → RelayCore P
  unfolding set_flows
  remove_flow flow c = set_flows (remove flow c.flows) c

  unfoldable pub reject_packet : RelayCore P → RelayCore P
  reject_packet c = record c {
    metrics = record c.metrics { packets_rejected = (c.metrics.packets_rejected + 1) % 2 ^ 64 };
  }
