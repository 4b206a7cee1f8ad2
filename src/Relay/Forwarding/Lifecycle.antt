-- ===== src/Relay/Forwarding/Lifecycle.antt =====
-- The states of a context of relay/src/forwarding.rs, and its requests, over any calls.
use real_layer.Base.{
  ℕ, String, some, list_eq, nat_eq, ◌||◌, ◌≡◌, refl, ap, true, List, [], ◌∷◌, Result, ok, err,
  arith, ◌==◌, Bool-cases, inl, inr,
}
use real_layer.Network.Session.Types.{SessionId}
use real_layer.Network.Session.Primitives.{Primitives}
use real_layer.Relay.Forwarding.{
  ForwardingContext, ForwardingDirection, ForwardingState, created, connecting, established,
  forwarding, closing, closed, ForwardingError, closed_context, forwarding_state_eq, state_beq_iff,
  is_repeated, is_violation, bind_relay_session, transition_connecting, transition_established,
  begin_forwarding, transition_closing, transition_closed, accept_sequence, transition,
}
use real_layer.Relay.Forwarding.Steps.{
  Op, connect, establish, close, finish_close, bind, forward, number, Step, dial, answered, bound,
  numbered, end, IsLate, bind-from, close-from, closing-Step, connect-from, establish-from,
  finish_close-from, forward-from, is_done, is_repeated-some, is_violation-IsLate, live-Step,
  not_live, step_done,
}

module _ (lib : Primitives) where
  open lib use {PeerId}

  abbrev Answer : Type 0
  Answer = ForwardingContext PeerId × Result ForwardingError (Unit {0})

  unfoldable pub apply : Op → ForwardingContext PeerId → Answer
  apply connect c = transition_connecting lib c
  apply establish c = transition_established lib c
  apply close c = transition_closing lib c
  apply finish_close c = transition_closed lib c
  apply (bind id) c = bind_relay_session lib id c
  apply (forward id direction) c = begin_forwarding lib id direction c
  apply (number n) c = accept_sequence lib n c

  unfoldable pub run : List Op → ForwardingContext PeerId → ForwardingContext PeerId
  run [] c = c
  run (op ∷ ops) c = run ops (apply op c).0

  -- The circuit's identity.
  abbrev Same : ForwardingContext PeerId → ForwardingContext PeerId → Type 0
  Same c c' =
      (c'.forwarding_id ≡ c.forwarding_id)
      × (c'.client_session_id ≡ c.client_session_id)
      × (c'.client_peer ≡ c.client_peer)
      × (c'.entry_peer ≡ c.entry_peer)
      × (c'.exit_peer ≡ c.exit_peer)
      × (c'.route ≡ c.route)

  -- Why a call is refused: it has no step from this state, it repeats the last request to forward, or
  -- its number does not rise.
  pub data Barred (op : Op) (c : ForwardingContext PeerId) : Type 0 where
    no_step : ((t : ForwardingState) → ¬ Step op c.state t) → Barred op c
    repeated :
        (id : SessionId) (d : ForwardingDirection)
        → op ≡ forward id d
        → c.last_request ≡ some (id, d)
        → Barred op c
    late : (n : ℕ) → op ≡ number n → IsLate c.last_sequence n → Barred op c

  -- What one call does: it succeeds with a step of its own, or it is refused and changes nothing.
  pub data Move (op : Op) (c : ForwardingContext PeerId) (r : Answer) : Type 0 where
    taken : Step op c.state r.0.state → Same c r.0 → r.1 ≡ ok tt → Move op c r
    refused : (x : ForwardingError) → Barred op c → r ≡ (c, err x) → Move op c r

  -- The calls of a history, one after the other.
  pub data Moves : List Op → ForwardingContext PeerId → ForwardingContext PeerId → Type 0 where
    over : {c : ForwardingContext PeerId} → Moves [] c c
    next :
        {op : Op} {ops : List Op} {c c' : ForwardingContext PeerId}
        → Move op c (apply op c)
        → Moves ops (apply op c).0 c'
        → Moves (op ∷ ops) c c'

  kept : (c : ForwardingContext PeerId) → Same c c
  kept c = (refl, refl, refl, refl, refl, refl)

  transition-Move :
      (op : Op) (expected after : ForwardingState) (operation : String)
      (c : ForwardingContext PeerId)
      → Step op expected after
      → ((t : ForwardingState) → Step op c.state t → c.state ≡ expected)
      → Move op c (transition lib expected after operation c)
  unfolding transition
  transition-Move op expected after operation c step from =
      elim (Bool-cases (c.state == expected)) [
        | inr other ↦ rw other (
            refused _ (no_step λ t st. ground (arith, state_beq_iff c.state expected, from t st))
              refl)
        | inl e ↦ rw e (taken (rw ((state_beq_iff c.state expected).0 e) step) (kept c) refl)
      ]

  begin_forwarding-Move :
      (id : SessionId) (d : ForwardingDirection) (c : ForwardingContext PeerId)
      → Move (forward id d) c (begin_forwarding lib id d c)
  unfolding begin_forwarding
  begin_forwarding-Move id d c = elim (Bool-cases (c.state == closing || c.state == closed)) [
    | inl done ↦ rw done (refused _ (no_step λ t st. not_live c.state done (forward-from st)) refl)
    | inr open_still ↦ elim (Bool-cases (c.state == established || c.state == forwarding)) [
      | inr early ↦
          rw (open_still, early) (refused _ (no_step λ t st. ground (arith, forward-from st)) refl)
      | inl live ↦ elim (Bool-cases (is_repeated c.last_request id d)) [
        | inl same ↦
            rw (open_still, live, same)
              (refused _ (repeated id d refl (is_repeated-some c.last_request id d same)) refl)
        | inr new ↦ rw (open_still, live, new) (taken (live-Step id d c.state live) (kept c) refl)
      ]
    ]
  ]

  transition_closing-Move : (c : ForwardingContext PeerId) → Move close c (transition_closing lib c)
  unfolding transition_closing
  transition_closing-Move c = elim (Bool-cases (c.state == created || c.state == closed)) [
    | inl holds ↦ rw holds (refused _ (no_step λ t st. ground (arith, close-from st)) refl)
    | inr fails ↦ rw fails (taken (closing-Step c.state fails) (kept c) refl)
  ]

  transition_closed-Move :
      (c : ForwardingContext PeerId) → Move finish_close c (transition_closed lib c)
  unfolding transition_closed
  transition_closed-Move c = elim (Bool-cases (c.state == closing)) [
    | inr fails ↦ rw fails (
        refused _
          (no_step λ t st. ground (arith, state_beq_iff c.state closing, finish_close-from st))
          refl)
    | inl holds ↦ rw holds (taken (rw ((state_beq_iff c.state closing).0 holds) end) (kept c) refl)
  ]

  bind_relay_session-Move :
      (id : SessionId) (c : ForwardingContext PeerId)
      → Move (bind id) c (bind_relay_session lib id c)
  unfolding bind_relay_session
  bind_relay_session-Move id c = elim (Bool-cases (c.state == established)) [
    | inl holds ↦
        rw holds (taken (rw ((state_beq_iff c.state established).0 holds) bound) (kept c) refl)
    | inr fails ↦ rw fails (
        refused _ (no_step λ t st. ground (arith, state_beq_iff c.state established, bind-from st))
          refl)
  ]

  accept_sequence-Move :
      (n : ℕ) (c : ForwardingContext PeerId) → Move (number n) c (accept_sequence lib n c)
  unfolding accept_sequence
  accept_sequence-Move n c = elim (Bool-cases (is_violation c.last_sequence n)) [
    | inl holds ↦
        rw holds (refused _ (late n refl (is_violation-IsLate c.last_sequence n holds)) refl)
    | inr fails ↦ rw fails (taken numbered (kept c) refl)
  ]

  apply-Move : (op : Op) (c : ForwardingContext PeerId) → Move op c (apply op c)
  unfolding apply transition_connecting transition_established
  apply-Move connect c =
      transition-Move connect created connecting "connect" c dial (λ t. connect-from)
  apply-Move establish c =
      transition-Move establish connecting established "establish" c answered (λ t. establish-from)
  apply-Move close c = transition_closing-Move c
  apply-Move finish_close c = transition_closed-Move c
  apply-Move (bind id) c = bind_relay_session-Move id c
  apply-Move (forward id d) c = begin_forwarding-Move id d c
  apply-Move (number n) c = accept_sequence-Move n c

  pub run-Moves : (ops : List Op) (c : ForwardingContext PeerId) → Moves ops c (run ops c)
  unfolding run
  run-Moves [] c = over
  run-Moves (op ∷ ops) c = next (apply-Move op c) (run-Moves ops (apply op c).0)

  done_after :
      {ops : List Op} {c c' : ForwardingContext PeerId}
      → Moves ops c c'
      → is_done c.state ≡ true
      → is_done c'.state ≡ true
  done_after over h = h
  done_after (next (taken step same e) more) h = done_after more (step_done step h)
  done_after (next (refused x why e) more) h =
      done_after more (rw (ap (λ (r : Answer). r.0.state) e) h)

  -- Once `transition_closing` succeeded, whatever is called since, a request to forward is
  -- refused because the context is closed, and leaves the context as it is.
  closing_for_good :
      (c c' : ForwardingContext PeerId) (ops : List Op) (id : SessionId) (d : ForwardingDirection)
      → transition_closing lib c ≡ (c', ok tt)
      → begin_forwarding lib id d (run ops c') ≡ (run ops c', err closed_context)
  unfolding begin_forwarding transition_closing
  closing_for_good c c' ops id d h = rw (done_after (run-Moves ops c') (ground arith)) refl
