-- ===== src/Relay/Core/Lifecycle.antt =====
-- The order of a relay's lifecycle in relay/src/core.rs, and what it closes.
use real_layer.Base.{
  ℕ, ◌≤◌, ◌≡◌, List, [], ◌∷◌, arith, Eq, Bool-cases, inl, inr, leb, length, true, list_eq, nat_eq,
}
use real_layer.Base.Map.{contains_key, contains_key-remove}
use real_layer.Network.Session.Types.{SessionId}
use real_layer.Relay.Core.{
  RelayCore, RelayLifecycle, starting, discovering, ready, draining, shutting_down, stopped,
  is_transition, is_admitting, transition, set_peers, set_sessions, set_flows, admit_peer,
  remove_peer, admit_session, remove_session, count_packet, admit_flow, remove_flow, reject_packet,
}
use real_layer.Relay.Core.Calls.{
  Call, transition_to, admits_peer, removes_peer, admits_session, removes_session, removes_flow,
  admits_flow, rejects, apply, run,
}

-- How far a relay has come.
abbrev pub stage : RelayLifecycle → ℕ
stage starting = 0
stage discovering = 1
stage ready = 2
stage draining = 3
stage shutting_down = 4
stage stopped = 5

is_transition-stage : (a b : RelayLifecycle) → is_transition a b ≡ true → stage a ≤ stage b
unfolding is_transition
is_transition-stage a b h = ground arith

is_admitting-stage : (l : RelayLifecycle) → is_admitting l ≡ true → stage l ≤ 2
unfolding is_admitting
is_admitting-stage l h = ground arith

module _ {P : Type 0} ⦃e : Eq P⦄ where
  -- A step from one core to the next: the lifecycle goes forward, and from draining on no peer and no
  -- session is new.
  pub record Later (c c' : RelayCore P) : Type 0 where
    pub forward : stage c.lifecycle ≤ stage c'.lifecycle
    pub old_peers :
        3 ≤ stage c.lifecycle
        → (p : P) → contains_key p c'.peers ≡ true
        → contains_key p c.peers ≡ true
    pub old_sessions :
        3 ≤ stage c.lifecycle
        → (s : SessionId) → contains_key s c'.sessions ≡ true
        → contains_key s c.sessions ≡ true

  stays : (c : RelayCore P) → Later c c
  stays c = record { forward = omega arith; old_peers = λ d p h. h; old_sessions = λ d s h. h }

  transition-Later : (l : RelayLifecycle) (c : RelayCore P) → Later c (transition l c).0
  unfolding transition
  transition-Later l c = elim (Bool-cases (is_transition c.lifecycle l)) [
    | inr refused ↦ rw refused (stays c)
    | inl moved ↦ rw moved (record {
      forward = is_transition-stage c.lifecycle l moved;
      old_peers = λ d p h. h;
      old_sessions = λ d s h. h;
    })
  ]

  admit_peer-Later : (p : P) (c : RelayCore P) → Later c (admit_peer p c).0
  unfolding admit_peer set_peers
  admit_peer-Later p c = elim (Bool-cases (contains_key p c.peers)) [
    | inl known ↦ rw known (stays c)
    | inr new ↦ elim (Bool-cases (is_admitting c.lifecycle)) [
      | inr late ↦ rw (new, late) (stays c)
      | inl early ↦ elim (Bool-cases (leb c.limits.maximum_connected_peers (length c.peers))) [
        | inl full ↦ rw (new, early, full) (stays c)
        | inr room ↦
            rw (new, early, room)
              (record {
                forward = omega arith;
                old_peers =
                    λ d q h. absurd (omega (arith, d, is_admitting-stage c.lifecycle early));
                old_sessions = λ d s h. h;
              })
      ]
    ]
  ]

  admit_session-Later : (s : SessionId) (c : RelayCore P) → Later c (admit_session s c).0
  unfolding admit_session set_sessions
  admit_session-Later s c = elim (Bool-cases (is_admitting c.lifecycle)) [
    | inr late ↦ rw late (stays c)
    | inl early ↦ elim (Bool-cases (leb c.limits.maximum_active_sessions (length c.sessions))) [
      | inl full ↦ rw (early, full) (stays c)
      | inr room ↦
          rw (early, room)
            (record {
              forward = omega arith;
              old_peers = λ d q h. h;
              old_sessions =
                  λ d t h. absurd (omega (arith, d, is_admitting-stage c.lifecycle early));
            })
    ]
  ]

  admit_flow-Later :
      (s : SessionId) (bytes : ℕ) (c : RelayCore P) → Later c (admit_flow s bytes c).0
  unfolding admit_flow set_flows count_packet
  admit_flow-Later s bytes c = elim (Bool-cases (contains_key s c.flows)) [
    | inl known ↦ rw known (stays c)
    | inr new ↦ elim (Bool-cases (leb c.limits.maximum_active_flows (length c.flows))) [
      | inl full ↦ rw (new, full) (stays c)
      | inr room ↦
          rw (new, room)
            (record { forward = omega arith; old_peers = λ d q h. h; old_sessions = λ d t h. h })
    ]
  ]

  apply-Later : (call : Call P) (c : RelayCore P) → Later c (apply call c)
  unfolding apply
  apply-Later (transition_to l) c = transition-Later l c
  apply-Later (admits_peer p) c = admit_peer-Later p c
  apply-Later (removes_peer p) c =
      unfold remove_peer set_peers in
      record {
        forward = omega arith;
        old_peers = λ d q h. contains_key-remove p q c.peers h;
        old_sessions = λ d s h. h;
      }
  apply-Later (admits_session s) c = admit_session-Later s c
  apply-Later (removes_session s) c =
      unfold remove_session set_sessions set_flows in
      record {
        forward = omega arith;
        old_peers = λ d p h. h;
        old_sessions = λ d t h. contains_key-remove s t c.sessions h;
      }
  apply-Later (removes_flow s) c =
      unfold remove_flow set_flows in
      record { forward = omega arith; old_peers = λ d p h. h; old_sessions = λ d t h. h }
  apply-Later (admits_flow s bytes) c = admit_flow-Later s bytes c
  apply-Later rejects c =
      unfold reject_packet in
      record { forward = omega arith; old_peers = λ d p h. h; old_sessions = λ d t h. h }

  Later-trans : (a b c : RelayCore P) → Later a b → Later b c → Later a c
  Later-trans a b c l m = record {
    forward = omega (arith, l.forward, m.forward);
    old_peers = λ d p h. l.old_peers d p (m.old_peers (omega (arith, l.forward)) p h);
    old_sessions = λ d s h. l.old_sessions d s (m.old_sessions (omega (arith, l.forward)) s h);
  }

  -- Whatever is called, the lifecycle never goes back, and once a relay drains, shuts down or has
  -- stopped, no peer and no session is added any more.
  pub run-Later : (calls : List (Call P)) (c : RelayCore P) → Later c (run calls c)
  unfolding run
  run-Later [] c = stays c
  run-Later (call ∷ calls) c =
      Later-trans c (apply call c) (run calls (apply call c)) (apply-Later call c)
        (run-Later calls (apply call c))
