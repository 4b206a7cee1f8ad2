-- ===== src/Relay/ExitHandler.antt =====
-- relay/src/exit_handler.rs: the packets that an exit relay takes and the responses that wait. A
-- method with `&mut self` returns the handler after the call beside its result. The adapter of
-- `exchange` is the parameter of two methods: its answer to a payload.
pub mod Duplicates
pub mod Responses
use real_layer.Base.Bytes.{Bytes}
use real_layer.Base.Map.{Map, insert, contains_key}
use real_layer.Base.{
  ℕ, List, [], ◌∷◌, Option, none, some, Bool, true, false, not, ◌||◌, Result, ok, err, Fault, error,
  panic, ◌>>=◌, ◌>>◌, reject, ensure, map_err, ok_or, ◌==◌, nat_eq, list_eq, ltb, leb, length,
  if◌then◌else◌, Eq,
}
use real_layer.Network.Session.Types.{SessionId}
use real_layer.Network.Session.Primitives.{Primitives}
use real_layer.Network.Packet.{NetworkPacket, PacketError, invalid_limit, oversized, map_fault}
use real_layer.Network.Packet as Packet
use real_layer.Relay.Forwarding as F
use real_layer.Relay.Forwarding.{
  ForwardingContext, ForwardingError, forwarding_state_eq, validate_entry, validate_exit,
  validate_relay_session, wrong_entry_relay, wrong_exit_relay, wrong_session_binding,
}
use real_layer.Relay.ExitNetwork.{ExitNetworkError}

pub data ExitPacketHandlerError : Type 0 where
  closed queue_full invalid_session invalid_route wrong_entry wrong_exit : ExitPacketHandlerError
  invalid_forwarding_state duplicate_packet shutdown : ExitPacketHandlerError
  invalid_packet : PacketError → ExitPacketHandlerError
  network : ExitNetworkError → ExitPacketHandlerError

pub record ExitForwardingBinding (P : Type 0) : Type 0 where
  pub relay_session_id : SessionId
  pub entry_peer : P
  pub exit_peer : P

-- Of the pending responses the last stands first.
pub record ExitPacketHandler : Type 0 where
  pub maximum_packet_size : ℕ
  pub mtu : ℕ
  pub maximum_pending_responses : ℕ
  pub pending_responses : List NetworkPacket
  pub handled_packets : Map SessionId (Unit {0})
  pub is_closed : Bool

unfoldable pub open_handler :
    (maximum_packet_size mtu maximum_pending_responses : ℕ)
    → Result ExitPacketHandlerError ExitPacketHandler
open_handler maximum_packet_size mtu maximum_pending_responses = do
  reject (maximum_packet_size == 0 || mtu == 0 || maximum_pending_responses == 0)
      (invalid_packet invalid_limit)
  ok (record {
    maximum_packet_size = maximum_packet_size;
    mtu = mtu;
    maximum_pending_responses = maximum_pending_responses;
    pending_responses = [];
    handled_packets = [];
    is_closed = false;
  })

unfoldable pub map_context_error : ForwardingError → ExitPacketHandlerError
map_context_error wrong_entry_relay = wrong_entry
map_context_error wrong_exit_relay = wrong_exit
map_context_error wrong_session_binding = invalid_session
map_context_error F.invalid_route = invalid_route
map_context_error e = invalid_session

abbrev pub Answer : Type 0 → Type 0
Answer A = ExitPacketHandler × Result (Fault ExitPacketHandlerError) A

-- The `?` operator: the call ends with the error, or goes on with the value.
abbrev pub on_ok :
    {A B : Type 0}
    → Result (Fault ExitPacketHandlerError) A
    → (A → ExitPacketHandler → Answer B)
    → ExitPacketHandler
    → Answer B
on_ok (err e) next h = (h, err e)
on_ok (ok a) next h = next a h

unfoldable pub ensure_open : ExitPacketHandler → Result (Fault ExitPacketHandlerError) (Unit {0})
ensure_open h = if h.is_closed then err (error closed) else ok tt

unfoldable pub validate_packet :
    Bytes → ExitPacketHandler → Result (Fault ExitPacketHandlerError) NetworkPacket
validate_packet bytes h =
    map_err (map_fault invalid_packet) (Packet.new bytes h.maximum_packet_size h.mtu)

-- After the packet has been checked.
unfoldable pub push : NetworkPacket → ExitPacketHandler → Answer (Unit {0})
push packet h =
    if leb h.maximum_pending_responses (length h.pending_responses)
    then (h, err (error queue_full))
    else (record h { pending_responses = packet ∷ h.pending_responses }, ok tt)

unfoldable pub enqueue_response : NetworkPacket → ExitPacketHandler → Answer (Unit {0})
unfolding ensure_open validate_packet push
enqueue_response packet h = on_ok (ensure_open h >> validate_packet packet.bytes h) push h

-- `pop`
abbrev pub pop_from :
    List NetworkPacket → ExitPacketHandler → ExitPacketHandler × Option NetworkPacket
pop_from [] h = (h, none)
pop_from (p ∷ ps) h = (record h { pending_responses = ps }, some p)

unfoldable pub pop : ExitPacketHandler → ExitPacketHandler × Option NetworkPacket
pop h = pop_from h.pending_responses h

unfoldable pub take_response : ExitPacketHandler → Answer (Option NetworkPacket)
unfolding ensure_open pop
take_response h = on_ok (ensure_open h) (λ u h₁. ((pop h₁).0, ok (pop h₁).1)) h

-- The response is enqueued and taken at once.
unfoldable pub pass_through : NetworkPacket → ExitPacketHandler → Answer NetworkPacket
unfolding enqueue_response pop
pass_through packet h =
    let (h', r) = enqueue_response packet h in
    on_ok r (λ u h₁. ((pop h₁).0, ok_or (pop h₁).1 (error shutdown))) h'

unfoldable pub handle : NetworkPacket → ExitPacketHandler → Answer NetworkPacket
unfolding ensure_open validate_packet pass_through
handle packet h = on_ok (ensure_open h >> validate_packet packet.bytes h) pass_through h

unfoldable pub close : ExitPacketHandler → Answer (Unit {0})
close h =
    if h.is_closed
    then (h, err (error closed))
    else (record h { is_closed = true; pending_responses = []; handled_packets = [] }, ok tt)

module _ (lib : Primitives) where
  open lib use {PeerId}

  -- The checks of the context that all bound methods begin with.
  unfoldable pub check_bound :
      ForwardingContext PeerId
      → ExitForwardingBinding PeerId
      → ExitPacketHandler
      → Result (Fault ExitPacketHandlerError) (Unit {0})
  unfolding ensure_open map_context_error
  check_bound context binding h = do
    ensure_open h
    ensure (context.state == F.forwarding) (error invalid_forwarding_state)
    map_err (λ e. error (map_context_error e)) (validate_entry lib binding.entry_peer context)
    map_err (λ e. error (map_context_error e)) (validate_exit lib binding.exit_peer context)
    map_err (λ e. error (map_context_error e))
        (validate_relay_session lib binding.relay_session_id context)

  -- `handled_packets.insert`, and what follows where the packet is new.
  unfoldable pub once :
      {A : Type 0}
      → (packet_id : SessionId) → (ExitPacketHandler → Answer A)
      → ExitPacketHandler
      → Answer A
  once packet_id next h =
      let rest = next (record h { handled_packets = insert packet_id tt h.handled_packets }) in
      if contains_key packet_id h.handled_packets then (h, err (error duplicate_packet)) else rest

  unfoldable pub bound :
      {A : Type 0}
      → (packet_id : SessionId) → ForwardingContext PeerId
      → ExitForwardingBinding PeerId
      → (ExitPacketHandler → Answer A)
      → ExitPacketHandler
      → Answer A
  unfolding check_bound once
  bound packet_id context binding next h =
      on_ok (check_bound context binding h) (λ u. once packet_id next) h

  unfoldable pub handle_bound :
      (packet_id : SessionId)
      → NetworkPacket
      → ForwardingContext PeerId
      → ExitForwardingBinding PeerId
      → ExitPacketHandler
      → Answer NetworkPacket
  unfolding bound handle
  handle_bound packet_id packet context binding h =
      bound packet_id context binding (handle packet) h

  -- The response of the network, checked as a packet.
  unfoldable pub respond : Result ExitNetworkError Bytes → ExitPacketHandler → Answer NetworkPacket
  unfolding validate_packet pass_through
  respond (err e) h = (h, err (error (network e)))
  respond (ok response) h = on_ok (validate_packet response h) pass_through h

  unfoldable pub handle_bound_with_adapter :
      (exchange : Bytes → Result ExitNetworkError Bytes)
      → (packet_id : SessionId) → NetworkPacket
      → ForwardingContext PeerId
      → ExitForwardingBinding PeerId
      → ExitPacketHandler
      → Answer NetworkPacket
  unfolding bound respond
  handle_bound_with_adapter exchange packet_id packet context binding h =
      bound packet_id context binding (respond (exchange packet.bytes)) h

  unfoldable pub handle_bound_with_adapter_payload :
      (exchange : Bytes → Result ExitNetworkError Bytes)
      → (packet_id : SessionId) → (payload : Bytes) → ForwardingContext PeerId
      → ExitForwardingBinding PeerId
      → ExitPacketHandler
      → Answer Bytes
  unfolding bound
  handle_bound_with_adapter_payload exchange packet_id payload context binding h =
      bound packet_id context binding
        (λ h'. (h', map_err (λ e. error (network e)) (exchange payload))) h

  -- The checks of `validate_bound_payload`.
  unfoldable pub check_payload :
      (payload : Bytes)
      → ForwardingContext PeerId
      → ExitForwardingBinding PeerId
      → ExitPacketHandler
      → Result (Fault ExitPacketHandlerError) (Unit {0})
  unfolding check_bound
  check_payload payload context binding h = do
    check_bound context binding h
    reject (ltb h.maximum_packet_size (length payload))
        (error (invalid_packet (oversized (length payload) h.maximum_packet_size)))

  -- Nothing is done with the payload.
  abbrev pub done : ExitPacketHandler → Answer (Unit {0})
  done h = (h, ok tt)

  unfoldable pub validate_bound_payload :
      (packet_id : SessionId)
      → (payload : Bytes) → ForwardingContext PeerId
      → ExitForwardingBinding PeerId
      → ExitPacketHandler
      → Answer (Unit {0})
  unfolding check_payload once
  validate_bound_payload packet_id payload context binding h =
      on_ok (check_payload payload context binding h) (λ u. once packet_id done) h
