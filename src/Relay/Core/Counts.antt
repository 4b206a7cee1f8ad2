-- ===== src/Relay/Core/Counts.antt =====
-- What is counted in the core of relay/src/core.rs.
use real_layer.Base.{ℕ, ◌≤◌, ◌<◌, ◌^◌, ◌≡◌, refl, arith, Eq, length, leb, false, list_eq, nat_eq}
use real_layer.Base.Map.{
  IsUnique, insert, remove, insert-IsUnique, remove-IsUnique, length-insert-le, length-remove-le,
}
use real_layer.Network.Session.Types.{SessionId}
use real_layer.Relay.Core.{
  RelayCore, RelayResourceLimits, Set, new, set_peers, set_sessions, set_flows, count_packet,
  saturating_add,
}

-- A set within its limit, that the metrics count.
pub record IsCounted {K : Type 0} ⦃e : Eq K⦄ (s : Set K) (maximum counted : ℕ) : Type 0 where
  pub unique : IsUnique s
  pub bounded : length s ≤ maximum
  pub counted_right : counted ≡ length s

module _ {K : Type 0} ⦃e : Eq K⦄ where
  pub insert-IsCounted :
      (k : K) (s : Set K) (maximum counted : ℕ)
      → IsCounted s maximum counted
      → length s < maximum
      → IsCounted (insert k tt s) maximum (length (insert k tt s))
  insert-IsCounted k s maximum counted h room = record {
    unique = insert-IsUnique k tt s h.unique;
    bounded = omega (arith, length-insert-le k tt s);
    counted_right = refl;
  }

  pub remove-IsCounted :
      (k : K) (s : Set K) (maximum counted : ℕ)
      → IsCounted s maximum counted
      → IsCounted (remove k s) maximum (length (remove k s))
  remove-IsCounted k s maximum counted h = record {
    unique = remove-IsUnique k s h.unique;
    bounded = omega (arith, length-remove-le k s, h.bounded);
    counted_right = refl;
  }

saturating_add-lt : (m n : ℕ) → m < 2 ^ 64 → saturating_add m n < 2 ^ 64
unfolding saturating_add
saturating_add-lt m n h = ground arith

pub room_in : {m n l : ℕ} → m ≡ n → leb m l ≡ false → l < n
room_in {m} {n} {l} e h = ground arith

module _ {P : Type 0} ⦃e : Eq P⦄ where
  pub record IsAccounted (limits : RelayResourceLimits) (c : RelayCore P) : Type 0 where
    pub same_limits : c.limits ≡ limits
    pub peers : IsCounted c.peers limits.maximum_connected_peers c.metrics.active_peers
    pub sessions : IsCounted c.sessions limits.maximum_active_sessions c.metrics.active_sessions
    pub flows : IsCounted c.flows limits.maximum_active_flows c.metrics.active_flows
    pub forwarded : c.metrics.bytes_forwarded < 2 ^ 64

  pub new-IsAccounted : (p : P) (limits : RelayResourceLimits) → IsAccounted limits (new p limits)
  unfolding new
  new-IsAccounted p limits = record {
    same_limits = refl;
    peers = record { unique = tt; bounded = omega arith; counted_right = refl };
    sessions = record { unique = tt; bounded = omega arith; counted_right = refl };
    flows = record { unique = tt; bounded = omega arith; counted_right = refl };
    forwarded = omega arith;
  }

  pub set_peers-IsAccounted :
      (limits : RelayResourceLimits) (s : Set P) (c : RelayCore P)
      → IsAccounted limits c
      → IsCounted s limits.maximum_connected_peers (length s)
      → IsAccounted limits (set_peers s c)
  unfolding set_peers
  set_peers-IsAccounted limits s c h counted = record {
    same_limits = h.same_limits;
    peers = counted;
    sessions = h.sessions;
    flows = h.flows;
    forwarded = h.forwarded;
  }

  pub set_sessions-IsAccounted :
      (limits : RelayResourceLimits) (s : Set SessionId) (c : RelayCore P)
      → IsAccounted limits c
      → IsCounted s limits.maximum_active_sessions (length s)
      → IsAccounted limits (set_sessions s c)
  unfolding set_sessions
  set_sessions-IsAccounted limits s c h counted = record {
    same_limits = h.same_limits;
    sessions = counted;
    peers = h.peers;
    flows = h.flows;
    forwarded = h.forwarded;
  }

  pub set_flows-IsAccounted :
      (limits : RelayResourceLimits) (s : Set SessionId) (c : RelayCore P)
      → IsAccounted limits c
      → IsCounted s limits.maximum_active_flows (length s)
      → IsAccounted limits (set_flows s c)
  unfolding set_flows
  set_flows-IsAccounted limits s c h counted = record {
    same_limits = h.same_limits;
    flows = counted;
    peers = h.peers;
    sessions = h.sessions;
    forwarded = h.forwarded;
  }

  pub count_packet-IsAccounted :
      (limits : RelayResourceLimits) (bytes : ℕ) (c : RelayCore P)
      → IsAccounted limits c
      → IsAccounted limits (count_packet bytes c)
  unfolding count_packet
  count_packet-IsAccounted limits bytes c h = record {
    same_limits = h.same_limits;
    peers = h.peers;
    sessions = h.sessions;
    flows = h.flows;
    forwarded = saturating_add-lt c.metrics.bytes_forwarded bytes h.forwarded;
  }
