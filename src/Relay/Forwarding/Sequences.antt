-- ===== src/Relay/Forwarding/Sequences.antt =====
-- The sequence numbers and the requests that a context of relay/src/forwarding.rs takes.
use real_layer.Base.{ℕ, suc, ◌≤◌, List, [], ◌∷◌, Option, none, some, Result, ok, arith}
use real_layer.Network.Session.Primitives.{Primitives}
use real_layer.Relay.Forwarding.{
  ForwardingContext, ForwardingError, accept_sequence, begin_forwarding, is_violation,
  bind_relay_session, transition_connecting, transition_established, transition_closing,
  transition_closed, transition,
}
use real_layer.Relay.Forwarding.Steps.{
  Op, connect, establish, close, finish_close, bind, forward, number,
}
use real_layer.Relay.Forwarding.Lifecycle.{apply}

-- The numbers rise strictly, from `n` or more.
abbrev pub RisingFrom : ℕ → List ℕ → Type 0
RisingFrom n [] = Unit {0}
RisingFrom n (k ∷ ks) = (n ≤ k) × RisingFrom (suc k) ks

-- The first sequence number that a context still accepts.
abbrev pub floor : Option ℕ → ℕ
floor none = 1
floor (some last) = suc last

abbrev if_number : Op → Result ForwardingError (Unit {0}) → List ℕ → List ℕ
if_number (number n) (ok u) ns = n ∷ ns
if_number op r ns = ns

module _ (lib : Primitives) where
  open lib use {PeerId}

  -- The sequence numbers that are accepted over a run of calls.
  unfoldable pub accepted_numbers : List Op → ForwardingContext PeerId → List ℕ
  accepted_numbers [] c = []
  accepted_numbers (op ∷ ops) c =
      let (c', r) = apply lib op c in if_number op r (accepted_numbers ops c')

  keeps :
      (op : Op) (c : ForwardingContext PeerId) (ns : List ℕ)
      → RisingFrom (floor (apply lib op c).0.last_sequence) ns
      → RisingFrom (floor c.last_sequence) (if_number op (apply lib op c).1 ns)
  unfolding apply accept_sequence is_violation begin_forwarding bind_relay_session
      transition_connecting transition_established transition_closing transition_closed transition
  keeps connect c ns h = ground arith
  keeps establish c ns h = ground arith
  keeps close c ns h = ground arith
  keeps finish_close c ns h = ground arith
  keeps (bind id) c ns h = ground arith
  keeps (forward id d) c ns h = ground arith
  keeps (number n) c ns h = ground arith

  -- Whatever else is called in between, the sequence numbers that a context accepts are positive and
  -- rise strictly.
  pub accepted_numbers-RisingFrom :
      (ops : List Op) (c : ForwardingContext PeerId)
      → RisingFrom (floor c.last_sequence) (accepted_numbers ops c)
  unfolding accepted_numbers
  accepted_numbers-RisingFrom [] c = tt
  accepted_numbers-RisingFrom (op ∷ ops) c =
      keeps op c (accepted_numbers ops (apply lib op c).0)
        (accepted_numbers-RisingFrom ops (apply lib op c).0)
