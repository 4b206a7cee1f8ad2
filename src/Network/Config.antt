-- ===== src/Network/Config.antt =====
-- network/src/config.rs: the limits of a relay and the settings that are read from a word. A word is
-- compared after `to_ascii_lowercase`, on its bytes. `RelayResourceLimits` is in `Relay.Core` and
-- `RouteMode` in `Relay.RouteSelection`.
use real_layer.Base.{
  ℕ, ◌+◌, ◌≡◌, refl, ◌↔◌, ◌≤◌, String, List, [], ◌∷◌, Bool, Result, ok, err, arith, ◌||◌, ◌&&◌,
  ◌==◌, nat_eq, list_eq, leb, reject, any, ◌>>◌, if◌then◌else◌,
}
use real_layer.Base.Bytes.{Bytes}
use real_layer.Base.Text.{as_bytes}
use real_layer.Relay.Core.{RelayResourceLimits}
use real_layer.Relay.RouteSelection.{RouteMode, one_hop, two_hop}

pub data ConfigError : Type 0 where
  missing : (key : String) → ConfigError
  invalid : (key value : String) → ConfigError

unfoldable validate_limits : RelayResourceLimits → Result ConfigError (Unit {0})
validate_limits l = do
  reject (l.maximum_connected_peers == 0) (invalid "GHOST_MAX_CONNECTED_PEERS" "must be non-zero")
  reject (l.maximum_active_sessions == 0) (invalid "GHOST_MAX_ACTIVE_SESSIONS" "must be non-zero")
  reject
      (l.maximum_active_flows == 0
        || l.maximum_queued_packets == 0
        || l.maximum_exit_connections == 0)
      (invalid "GHOST_MAX_ACTIVE_FLOWS" "resource limits must be non-zero")
  reject (l.session_timeout == 0 || l.flow_timeout == 0)
      (invalid "GHOST_SESSION_TIMEOUT_SECS" "timeouts must be non-zero")

abbrev lower : ℕ → ℕ
lower b = if leb 65 b && leb b 90 then b + 32 else b

unfoldable to_ascii_lowercase : Bytes → Bytes
to_ascii_lowercase [] = []
to_ascii_lowercase (b ∷ bs) = lower b ∷ to_ascii_lowercase bs

-- Whether a word is one of the names.
unfoldable is_word : (names : List String) → (value : String) → Bool
unfolding to_ascii_lowercase
is_word names value = any (λ name. to_ascii_lowercase (as_bytes value) == as_bytes name) names

unfoldable route_mode_of : String → Result ConfigError RouteMode
unfolding is_word
route_mode_of value =
    if is_word ("one-hop" ∷ "one_hop" ∷ []) value
    then ok one_hop
    else if is_word ("two-hop" ∷ "two_hop" ∷ []) value
    then ok two_hop
    else err (invalid "GHOST_ROUTE_MODE" value)

data NetworkEnvironment : Type 0 where
  development staging production : NetworkEnvironment

unfoldable environment_of : String → Result ConfigError NetworkEnvironment
unfolding is_word
environment_of value =
    if is_word ("development" ∷ "dev" ∷ []) value
    then ok development
    else if is_word ("staging" ∷ "stage" ∷ []) value
    then ok staging
    else if is_word ("production" ∷ "prod" ∷ []) value
    then ok production
    else err (invalid "GHOST_NETWORK_ENVIRONMENT" value)

data LogLevel : Type 0 where
  error_level warn info debug trace : LogLevel

unfoldable log_level_of : String → Result ConfigError LogLevel
unfolding is_word
log_level_of value =
    if is_word ("error" ∷ []) value
    then ok error_level
    else if is_word ("warn" ∷ "warning" ∷ []) value
    then ok warn
    else if is_word ("info" ∷ []) value
    then ok info
    else if is_word ("debug" ∷ []) value
    then ok debug
    else if is_word ("trace" ∷ []) value
    then ok trace
    else err (invalid "GHOST_LOG_LEVEL" value)

data RelayRole : Type 0 where
  entry exit both : RelayRole

unfoldable relay_role_of : String → Result ConfigError RelayRole
unfolding is_word
relay_role_of value =
    if is_word ("entry" ∷ []) value
    then ok entry
    else if is_word ("exit" ∷ []) value
    then ok exit
    else if is_word ("both" ∷ "entry_exit" ∷ "entry-exit" ∷ []) value
    then ok both
    else err (invalid "GHOST_RELAY_ROLE" value)

-- Limits that a relay accepts, all positive.
record ArePositive (l : RelayResourceLimits) : Type 0 where
  peers : 1 ≤ l.maximum_connected_peers
  sessions : 1 ≤ l.maximum_active_sessions
  flows : 1 ≤ l.maximum_active_flows
  packets : 1 ≤ l.maximum_queued_packets
  connections : 1 ≤ l.maximum_exit_connections
  session : 1 ≤ l.session_timeout
  flow : 1 ≤ l.flow_timeout

-- Limits are accepted exactly when all of them are positive.
validate_limits_iff : (l : RelayResourceLimits) → (validate_limits l ≡ ok tt) ↔ ArePositive l
unfolding validate_limits
validate_limits_iff l = (
  λ h. record {
    peers = ground arith;
    sessions = ground arith;
    flows = ground arith;
    packets = ground arith;
    connections = ground arith;
    session = ground arith;
    flow = ground arith;
  },
  λ p. ground (arith, p.peers, p.sessions, p.flows, p.packets, p.connections, p.session, p.flow),
)

-- A word in lower case stays as it is.
to_ascii_lowercase_idem :
    (bs : Bytes) → to_ascii_lowercase (to_ascii_lowercase bs) ≡ to_ascii_lowercase bs
unfolding to_ascii_lowercase
to_ascii_lowercase_idem [] = refl
to_ascii_lowercase_idem (b ∷ bs) = ground (arith, to_ascii_lowercase_idem bs)
