-- ===== src/Relay/Core/Calls.antt =====
-- Sequences of calls on the core of relay/src/core.rs.
use real_layer.Base.{ℕ, List, [], ◌∷◌, Eq, list_eq, nat_eq}
use real_layer.Network.Session.Types.{SessionId}
use real_layer.Relay.Core.{
  RelayCore, RelayLifecycle, transition, admit_peer, remove_peer, admit_session, remove_session,
  admit_flow, remove_flow, reject_packet,
}

-- The calls that change a relay's core.
pub data Call (P : Type 0) : Type 0 where
  transition_to : RelayLifecycle → Call P
  admits_peer removes_peer : P → Call P
  admits_session removes_session removes_flow : SessionId → Call P
  admits_flow : SessionId → (bytes : ℕ) → Call P
  rejects : Call P

module _ {P : Type 0} ⦃e : Eq P⦄ where
  unfoldable pub apply : Call P → RelayCore P → RelayCore P
  apply (transition_to l) c = (transition l c).0
  apply (admits_peer p) c = (admit_peer p c).0
  apply (removes_peer p) c = remove_peer p c
  apply (admits_session s) c = (admit_session s c).0
  apply (removes_session s) c = remove_session s c
  apply (removes_flow s) c = remove_flow s c
  apply (admits_flow s bytes) c = (admit_flow s bytes c).0
  apply rejects c = reject_packet c

  unfoldable pub run : List (Call P) → RelayCore P → RelayCore P
  unfolding apply
  run [] c = c
  run (call ∷ calls) c = run calls (apply call c)
