-- ===== src/Relay/Sessions.antt =====
-- relay/src/session_manager.rs: the sessions that a relay serves. Readings of the clock are arguments;
-- `duration_since` gives 0 for a time in the future, as subtraction does.
pub mod Limits
use real_layer.Base.{
  ℕ, Bool, [], Option, Result, ok, err, ok_or, ◌||◌, ◌-◌, ◌==◌, nat_eq, list_eq, leb, length,
  if◌then◌else◌,
}
use real_layer.Base.Map.{Map, get, insert, remove, contains_key, retain}
use real_layer.Network.Session.Types.{SessionId, RouteBinding}

pub record SessionBinding (P : Type 0) : Type 0 where
  pub session_id : SessionId
  pub authenticated_peer : P
  pub route : RouteBinding P
  pub entry_peer : P
  pub exit_peer : P
  pub created_at : ℕ
  pub last_activity : ℕ

pub data SessionManagerError : Type 0 where
  limit duplicate unknown : SessionManagerError

pub record SessionManager (P : Type 0) : Type 0 where
  pub sessions : Map SessionId (SessionBinding P)
  pub maximum_sessions : ℕ
  pub timeout : ℕ

module _ {P : Type 0} where
  unfoldable pub new_sessions :
      (maximum_sessions timeout : ℕ) → Result SessionManagerError (SessionManager P)
  new_sessions maximum_sessions timeout =
      if maximum_sessions == 0 || timeout == 0
      then err limit
      else ok (record { sessions = []; maximum_sessions = maximum_sessions; timeout = timeout })

  unfoldable pub is_active : (timeout now : ℕ) → SessionBinding P → Bool
  is_active timeout now s = leb (now - s.last_activity) timeout

  unfoldable pub cleanup_sessions : (now : ℕ) → SessionManager P → SessionManager P
  cleanup_sessions now m = record m { sessions = retain (is_active m.timeout now) m.sessions }

  -- `insert` after its call of `cleanup`.
  unfoldable pub insert_binding :
      SessionBinding P → SessionManager P → SessionManager P × Result SessionManagerError (Unit {0})
  insert_binding b m =
      if contains_key b.session_id m.sessions
      then (m, err duplicate)
      else if leb m.maximum_sessions (length m.sessions)
      then (m, err limit)
      else (record m { sessions = insert b.session_id b m.sessions }, ok tt)

  unfoldable pub insert_session :
      (now : ℕ)
      → SessionBinding P
      → SessionManager P
      → SessionManager P × Result SessionManagerError (Unit {0})
  unfolding cleanup_sessions insert_binding
  insert_session now b m = insert_binding b (cleanup_sessions now m)

  unfoldable pub find_session : SessionId → SessionManager P → Option (SessionBinding P)
  find_session id m = get id m.sessions

  unfoldable pub drop_binding :
      SessionId → SessionManager P → SessionManager P × Result SessionManagerError (Unit {0})
  drop_binding id m = (
    record m { sessions = remove id m.sessions },
    if contains_key id m.sessions then ok tt else err unknown,
  )
