-- ===== src/Relay/State/Ratings.antt =====
-- The rating of a relay's health.
use real_layer.Base.{
  ℕ, ◌+◌, ◌≤◌, ◌<◌, ◌≡◌, ◌≢◌, List, [], ◌∷◌, some, arith, Eq, length, nat_eq, true,
}
use real_layer.Base.Map.{remove, contains_key, get}
use real_layer.Relay.State.{
  RelayState, online, healthy, unhealthy, HealthThresholds, status_eq, evaluate, is_fresh, is_slow,
  last_round_trip, apply_network_event, peer_disconnected, from_state, mark_heartbeat,
}

module _ {P : Type 0} ⦃e : Eq P⦄ where
  remove-only :
      (p : P) (m : List (P × Unit {0})) → length m ≡ 1 → contains_key p m ≡ true → remove p m ≡ []
  unfolding remove contains_key get
  remove-only p [] h k = absurd (omega arith)
  remove-only p ((q, v) ∷ []) h k = ground arith
  remove-only p (x ∷ y ∷ m) h k = absurd (omega arith)

  -- A relay that had connections is unhealthy once its last peer has disconnected, whatever its
  -- heartbeats and latencies are.
  evaluate-last_peer :
      (s : RelayState P) (p : P) (thresholds : HealthThresholds) (timestamp now : ℕ)
      → length s.active_peers ≡ 1
      → contains_key p s.active_peers ≡ true
      → 0 < s.total_successful_connections
      → (evaluate (apply_network_event (peer_disconnected p) timestamp s) thresholds now).class
        ≡ unhealthy
  unfolding evaluate apply_network_event
  evaluate-last_peer s p thresholds timestamp now one known before =
      rw (remove-only p s.active_peers one known) (ground arith)

  -- A relay that is online with a peer is not unhealthy for as long after a heartbeat as a heartbeat
  -- counts as fresh, and is healthy if its last round trip was fast enough.
  evaluate-from_state :
      (s : RelayState P) (thresholds : HealthThresholds) (timestamp now later : ℕ)
      → s.status ≡ online
      → 0 < length s.active_peers
      → later ≤ timestamp + thresholds.heartbeat_freshness
      → ((evaluate (from_state s timestamp now).0 thresholds later).class ≢ unhealthy)
        × ((d : ℕ)
            → last_round_trip s.latency_measurements ≡ some d
            → d ≤ thresholds.degraded_latency
            → (evaluate (from_state s timestamp now).0 thresholds later).class ≡ healthy)
  unfolding evaluate from_state mark_heartbeat is_fresh is_slow
  evaluate-from_state s thresholds timestamp now later on peers fresh =
      (λ h. ground arith, λ d e fast. ground arith)
