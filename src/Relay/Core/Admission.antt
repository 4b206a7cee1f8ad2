-- ===== src/Relay/Core/Admission.antt =====
-- What the operations of relay/src/core.rs keep: the limits, and metrics that match the sets.
use real_layer.Base.{ℕ, ap, List, [], ◌∷◌, Eq, length, Bool-cases, inl, inr, leb, list_eq, nat_eq}
use real_layer.Base.Map.{insert, remove, contains_key}
use real_layer.Network.Session.Types.{SessionId}
use real_layer.Relay.Core.{
  RelayCore, RelayResourceLimits, RelayLifecycle, new, transition, set_sessions, admit_peer,
  remove_peer, admit_session, remove_session, is_admitting, is_transition, admit_flow, remove_flow,
  reject_packet,
}
use real_layer.Relay.Core.Calls.{
  Call, transition_to, admits_peer, removes_peer, admits_session, removes_session, removes_flow,
  admits_flow, rejects, apply, run,
}
use real_layer.Relay.Core.Counts.{
  IsAccounted, insert-IsCounted, remove-IsCounted, new-IsAccounted, set_peers-IsAccounted,
  set_sessions-IsAccounted, set_flows-IsAccounted, count_packet-IsAccounted, room_in,
}

module _ {P : Type 0} ⦃e : Eq P⦄ where
  admit_peer-IsAccounted :
      (limits : RelayResourceLimits) (p : P) (c : RelayCore P)
      → IsAccounted limits c
      → IsAccounted limits (admit_peer p c).0
  unfolding admit_peer
  admit_peer-IsAccounted limits p c h = elim (Bool-cases (contains_key p c.peers)) [
    | inl known ↦ rw known h
    | inr new ↦ elim (Bool-cases (is_admitting c.lifecycle)) [
      | inr late ↦ rw (new, late) h
      | inl early ↦ elim (Bool-cases (leb c.limits.maximum_connected_peers (length c.peers))) [
        | inl full ↦ rw (new, early, full) h
        | inr room ↦
            rw (new, early, room)
              (set_peers-IsAccounted limits (insert p tt c.peers) c h (
                insert-IsCounted p c.peers _ _ h.peers (
                  room_in
                    (ap (λ (l : RelayResourceLimits). l.maximum_connected_peers) h.same_limits)
                    room)))
      ]
    ]
  ]

  admit_session-IsAccounted :
      (limits : RelayResourceLimits) (s : SessionId) (c : RelayCore P)
      → IsAccounted limits c
      → IsAccounted limits (admit_session s c).0
  unfolding admit_session
  admit_session-IsAccounted limits s c h = elim (Bool-cases (is_admitting c.lifecycle)) [
    | inr late ↦ rw late h
    | inl early ↦ elim (Bool-cases (leb c.limits.maximum_active_sessions (length c.sessions))) [
      | inl full ↦ rw (early, full) h
      | inr room ↦
          rw (early, room)
            (set_sessions-IsAccounted limits (insert s tt c.sessions) c h (
              insert-IsCounted s c.sessions _ _ h.sessions (
                room_in (ap (λ (l : RelayResourceLimits). l.maximum_active_sessions) h.same_limits)
                  room)))
    ]
  ]

  admit_flow-IsAccounted :
      (limits : RelayResourceLimits) (s : SessionId) (bytes : ℕ) (c : RelayCore P)
      → IsAccounted limits c
      → IsAccounted limits (admit_flow s bytes c).0
  unfolding admit_flow
  admit_flow-IsAccounted limits s bytes c h = elim (Bool-cases (contains_key s c.flows)) [
    | inl known ↦ rw known h
    | inr new ↦ elim (Bool-cases (leb c.limits.maximum_active_flows (length c.flows))) [
      | inl full ↦ rw (new, full) h
      | inr room ↦
          rw (new, room)
            (count_packet-IsAccounted limits bytes _ (
              set_flows-IsAccounted limits (insert s tt c.flows) c h (
                insert-IsCounted s c.flows _ _ h.flows (
                  room_in (ap (λ (l : RelayResourceLimits). l.maximum_active_flows) h.same_limits)
                    room))))
    ]
  ]

  transition-IsAccounted :
      (limits : RelayResourceLimits) (l : RelayLifecycle) (c : RelayCore P)
      → IsAccounted limits c
      → IsAccounted limits (transition l c).0
  unfolding transition
  transition-IsAccounted limits l c h = elim (Bool-cases (is_transition c.lifecycle l)) [
    | inr refused ↦ rw refused h
    | inl moved ↦ rw moved (record {
      same_limits = h.same_limits;
      peers = h.peers;
      sessions = h.sessions;
      flows = h.flows;
      forwarded = h.forwarded;
    })
  ]

  apply-IsAccounted :
      (limits : RelayResourceLimits) (call : Call P) (c : RelayCore P)
      → IsAccounted limits c
      → IsAccounted limits (apply call c)
  unfolding apply
  apply-IsAccounted limits (transition_to l) c h = transition-IsAccounted limits l c h
  apply-IsAccounted limits (admits_peer p) c h = admit_peer-IsAccounted limits p c h
  apply-IsAccounted limits (removes_peer p) c h =
      unfold remove_peer in
      set_peers-IsAccounted limits (remove p c.peers) c h (remove-IsCounted p c.peers _ _ h.peers)
  apply-IsAccounted limits (admits_session s) c h = admit_session-IsAccounted limits s c h
  apply-IsAccounted limits (removes_session s) c h =
      unfold remove_session in
      set_flows-IsAccounted limits (remove s c.flows) (set_sessions (remove s c.sessions) c)
        (set_sessions-IsAccounted limits (remove s c.sessions) c h
          (remove-IsCounted s c.sessions _ _ h.sessions))
        (remove-IsCounted s c.flows _ _ h.flows)
  apply-IsAccounted limits (removes_flow s) c h =
      unfold remove_flow in
      set_flows-IsAccounted limits (remove s c.flows) c h (remove-IsCounted s c.flows _ _ h.flows)
  apply-IsAccounted limits (admits_flow s bytes) c h = admit_flow-IsAccounted limits s bytes c h
  apply-IsAccounted limits rejects c h =
      unfold reject_packet in
      record {
        same_limits = h.same_limits;
        peers = h.peers;
        sessions = h.sessions;
        flows = h.flows;
        forwarded = h.forwarded;
      }

  runs-IsAccounted :
      (limits : RelayResourceLimits) (calls : List (Call P)) (c : RelayCore P)
      → IsAccounted limits c
      → IsAccounted limits (run calls c)
  unfolding run
  runs-IsAccounted limits [] c h = h
  runs-IsAccounted limits (call ∷ calls) c h =
      runs-IsAccounted limits calls (apply call c) (apply-IsAccounted limits call c h)

  -- After any calls on a new core, no limit is exceeded, nothing is counted twice, and the counters of
  -- active peers, sessions and flows are the numbers of those that are admitted.
  pub run-IsAccounted :
      (p : P) (limits : RelayResourceLimits) (calls : List (Call P))
      → IsAccounted limits (run calls (new p limits))
  run-IsAccounted p limits calls =
      runs-IsAccounted limits calls (new p limits) (new-IsAccounted p limits)
