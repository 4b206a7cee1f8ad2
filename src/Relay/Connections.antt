-- ===== src/Relay/Connections.antt =====
-- relay/src/connection.rs: the connections of a relay. Readings of the clock are arguments;
-- `duration_since` gives 0 for a time in the future, as subtraction does.
pub mod Idle
use real_layer.Base.{
  ℕ, String, Bool, true, false, [], Option, none, some, Result, ok, err, Eq, ◌-◌, ◌==◌, nat_eq, leb,
  length, if◌then◌else◌,
}
use real_layer.Base.Map.{Map, get, insert, remove, contains_key, retain}

pub data ConnectionState : Type 0 where
  connecting ready closing closed : ConnectionState

pub record ConnectionRecord (P : Type 0) : Type 0 where
  pub peer_id : P
  pub state : ConnectionState
  pub created_at : ℕ
  pub last_activity : ℕ
  pub protocol_version : String

pub data ConnectionManagerError : Type 0 where
  limit duplicate : ConnectionManagerError

pub record ConnectionManager (P : Type 0) : Type 0 where
  pub records : Map P (ConnectionRecord P)
  pub maximum_connections : ℕ

module _ {P : Type 0} ⦃e : Eq P⦄ where
  unfoldable pub new_connections : ℕ → Result ConnectionManagerError (ConnectionManager P)
  new_connections maximum_connections =
      if maximum_connections == 0
      then err limit
      else ok (record { records = []; maximum_connections = maximum_connections })

  unfoldable pub new_record : (now : ℕ) → P → String → ConnectionRecord P
  new_record now peer_id protocol_version = record {
    peer_id = peer_id;
    state = ready;
    created_at = now;
    last_activity = now;
    protocol_version = protocol_version;
  }

  unfoldable pub establish :
      (now : ℕ)
      → P
      → (protocol_version : String) → ConnectionManager P
      → ConnectionManager P × Result ConnectionManagerError (Unit {0})
  unfolding new_record
  establish now peer_id protocol_version m =
      if contains_key peer_id m.records
      then (m, err duplicate)
      else if leb m.maximum_connections (length m.records)
      then (m, err limit)
      else (
        record m { records = insert peer_id (new_record now peer_id protocol_version) m.records },
        ok tt,
      )

  unfoldable pub touch : (now : ℕ) → P → ConnectionManager P → ConnectionManager P × Bool
  touch now peer_id m = elim (get peer_id m.records) [
    | none ↦ (m, false)
    | some r ↦
        (record m { records = insert peer_id (record r { last_activity = now }) m.records }, true)
  ]

  unfoldable pub close_connection : P → ConnectionManager P → ConnectionManager P × Bool
  close_connection peer_id m =
      (record m { records = remove peer_id m.records }, contains_key peer_id m.records)

  unfoldable pub is_busy : (idle_for now : ℕ) → ConnectionRecord P → Bool
  is_busy idle_for now r = leb (now - r.last_activity) idle_for

  unfoldable pub cleanup_idle : (idle_for now : ℕ) → ConnectionManager P → ConnectionManager P × ℕ
  cleanup_idle idle_for now m =
      let kept = retain (is_busy idle_for now) m.records in
      (record m { records = kept }, length m.records - length kept)
