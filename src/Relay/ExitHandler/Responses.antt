-- ===== src/Relay/ExitHandler/Responses.antt =====
-- The queue of responses of the exit handler, and the packets that it echoes.
use real_layer.Base.Bytes.{Bytes}
use real_layer.Base.{
  ◌≡◌, ◌∙◌, refl, ok, arith, length, leb, Bool-cases, Result-cases, inl, inr, false, ◌>>◌,
}
use real_layer.Network.Packet.{NetworkPacket, PacketError, map_fault}
use real_layer.Network.Packet as Packet
use real_layer.Network.Packet.Validity.{IsPacket, new-IsPacket}
use real_layer.Relay.ExitHandler.{
  ExitPacketHandler, ensure_open, validate_packet, push, enqueue_response, pop, pass_through,
  handle,
}

-- A packet that the handler takes.
pub record IsTaken (h : ExitPacketHandler) (bytes : Bytes) (p : NetworkPacket) : Type 0 where
  pub opened : h.is_closed ≡ false
  pub same : p.bytes ≡ bytes
  pub valid : IsPacket h.maximum_packet_size h.mtu p

check-IsTaken :
    (h : ExitPacketHandler) (bytes : Bytes) (p : NetworkPacket)
    → (ensure_open h >> validate_packet bytes h) ≡ ok p
    → IsTaken h bytes p
unfolding ensure_open validate_packet
check-IsTaken h bytes p e = elim (Result-cases (Packet.new bytes h.maximum_packet_size h.mtu)) [
  | inr (x, failed) ↦ absurd (ground arith)
  | inl (q, made) ↦
      let (same, valid) = new-IsPacket bytes h.maximum_packet_size h.mtu q made in
      let q_p : q ≡ p = ground arith in
      record { opened = ground arith; same = rw q_p at same; valid = rw q_p at valid }
]

-- Passing a packet through leaves the handler as it was.
pub pass_through-same : (p : NetworkPacket) (h : ExitPacketHandler) → (pass_through p h).0 ≡ h
unfolding pass_through enqueue_response push pop
pass_through-same p h = elim (Result-cases (ensure_open h >> validate_packet p.bytes h)) [
  | inr (e, failed) ↦ rw failed refl
  | inl (q, made) ↦
      elim (Bool-cases (leb h.maximum_pending_responses (length h.pending_responses))) [
        | inl full ↦ rw (made, full) refl
        | inr room ↦ rw (made, room) refl
      ]
]

pass_through-ok :
    (packet p : NetworkPacket) (h : ExitPacketHandler)
    → (pass_through packet h).1 ≡ ok p
    → IsTaken h packet.bytes p
unfolding pass_through enqueue_response push pop
pass_through-ok packet p h e =
    elim (Result-cases (ensure_open h >> validate_packet packet.bytes h)) [
      | inr (x, failed) ↦ absurd (ground arith)
      | inl (q, made) ↦
          elim (Bool-cases (leb h.maximum_pending_responses (length h.pending_responses))) [
            | inl full ↦ absurd (ground arith)
            | inr room ↦ rw (same q made room) (check-IsTaken h packet.bytes q made)
          ]
    ]
  where
    same :
        (q : NetworkPacket)
        → (ensure_open h >> validate_packet packet.bytes h) ≡ ok q
        → leb h.maximum_pending_responses (length h.pending_responses) ≡ false
        → p ≡ q
    same q made room = ground arith

-- `handle` echoes: the handler is as before, and a packet that comes back has the bytes that went in,
-- is a packet within the handler's limits, and comes from a handler that is open.
pub handle-echo :
    (packet : NetworkPacket) (h : ExitPacketHandler)
    → ((handle packet h).0 ≡ h)
      × ((p : NetworkPacket) → (handle packet h).1 ≡ ok p → IsTaken h packet.bytes p)
unfolding handle
handle-echo packet h = elim (Result-cases (ensure_open h >> validate_packet packet.bytes h)) [
  | inr (e, failed) ↦ rw failed (refl, λ p k. absurd (ground arith))
  | inl (q, made) ↦ rw made (pass_through-same q h, λ p k. again q made p (pass_through-ok q p h k))
]
  where
    again :
        (q : NetworkPacket)
        → (ensure_open h >> validate_packet packet.bytes h) ≡ ok q
        → (p : NetworkPacket) → IsTaken h q.bytes p
        → IsTaken h packet.bytes p
    again q made p t = record {
      opened = t.opened;
      same = t.same ∙ (check-IsTaken h packet.bytes q made).same;
      valid = t.valid;
    }
