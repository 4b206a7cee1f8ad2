-- ===== src/Relay/ExitHandler/Duplicates.antt =====
-- The identifiers of the packets that the exit handler has taken.
use real_layer.Base.Bytes.{Bytes}
use real_layer.Base.Map.{insert, contains_key, contains_key-insert, contains_key-insert_same}
use real_layer.Base.{
  ◌≡◌, ◌≢◌, refl, ap, List, [], ◌∷◌, Result, Fault, ok, err, error, arith, Bool-cases, Result-cases,
  inl, inr, true, ◌>>◌, map_err, list_eq, nat_eq,
}
use real_layer.Network.Session.Types.{SessionId}
use real_layer.Network.Session.Primitives.{Primitives}
use real_layer.Network.Packet.{NetworkPacket}
use real_layer.Relay.Forwarding.{ForwardingContext}
use real_layer.Relay.ExitNetwork.{ExitNetworkError}
use real_layer.Relay.ExitHandler.{
  ExitPacketHandler, ExitPacketHandlerError, ExitForwardingBinding, Answer, ensure_open,
  validate_packet, push, enqueue_response, pop, pop_from, take_response, on_ok, pass_through,
  handle, check_bound, once, bound, handle_bound, respond, handle_bound_with_adapter,
  handle_bound_with_adapter_payload, validate_bound_payload, check_payload, done, network,
}
use real_layer.Relay.ExitHandler.Responses.{pass_through-same, handle-echo}

-- Nothing that was handled is forgotten.
Keeps : ExitPacketHandler → ExitPacketHandler → Type 0
Keeps h h' =
    (id : SessionId)
    → contains_key id h.handled_packets ≡ true
    → contains_key id h'.handled_packets ≡ true

Keeps-same : (h h' : ExitPacketHandler) → h'.handled_packets ≡ h.handled_packets → Keeps h h'
unfolding Keeps
Keeps-same h h' e id k = rw e k

on_ok-Keeps :
    {A B : Type 0} (r : Result (Fault ExitPacketHandlerError) A)
    (next : A → ExitPacketHandler → Answer B) (h : ExitPacketHandler)
    → ((a : A) → Keeps h (next a h).0)
    → Keeps h (on_ok r next h).0
on_ok-Keeps (err e) next h k = Keeps-same h h refl
on_ok-Keeps (ok a) next h k = k a

enqueue_response-Keeps :
    (p : NetworkPacket) (h : ExitPacketHandler) → Keeps h (enqueue_response p h).0
unfolding enqueue_response push
enqueue_response-Keeps p h =
    on_ok-Keeps (ensure_open h >> validate_packet p.bytes h) push h
      (λ q. Keeps-same h _ (ground arith))

popped : (h : ExitPacketHandler) → (pop h).0.handled_packets ≡ h.handled_packets
unfolding pop
popped h = go h.pending_responses
  where
    go : (ps : List NetworkPacket) → (pop_from ps h).0.handled_packets ≡ h.handled_packets
    go [] = refl
    go (p ∷ ps) = refl

take_response-Keeps : (h : ExitPacketHandler) → Keeps h (take_response h).0
unfolding take_response pop
take_response-Keeps h = on_ok-Keeps (ensure_open h) _ h (λ u. Keeps-same h _ (popped h))

module _ (lib : Primitives) where
  open lib use {PeerId}

  once-Keeps :
      {A : Type 0} (id : SessionId) (next : ExitPacketHandler → Answer A) (h : ExitPacketHandler)
      → ((h' : ExitPacketHandler) → Keeps h' (next h').0)
      → Keeps h (once lib id next h).0
  unfolding once Keeps
  once-Keeps id next h k j known = elim (Bool-cases (contains_key id h.handled_packets)) [
    | inl old ↦ rw old known
    | inr new ↦ rw new (
        k (record h { handled_packets = insert id tt h.handled_packets }) j
          (contains_key-insert id j tt h.handled_packets known))
  ]

  bound-Keeps :
      {A : Type 0} (id : SessionId) (c : ForwardingContext PeerId)
      (b : ExitForwardingBinding PeerId) (next : ExitPacketHandler → Answer A)
      (h : ExitPacketHandler)
      → ((h' : ExitPacketHandler) → Keeps h' (next h').0)
      → Keeps h (bound lib id c b next h).0
  unfolding bound
  bound-Keeps id c b next h k =
      on_ok-Keeps (check_bound lib c b h) (λ u. once lib id next) h (λ u. once-Keeps id next h k)

  abbrev give : Result ExitNetworkError Bytes → ExitPacketHandler → Answer Bytes
  give r h = (h, map_err (λ e. error (network e)) r)

  pass_through-Keeps : (p : NetworkPacket) (h : ExitPacketHandler) → Keeps h (pass_through p h).0
  pass_through-Keeps p h =
      Keeps-same h _ (ap (λ (x : ExitPacketHandler). x.handled_packets) (pass_through-same p h))

  handle-Keeps : (p : NetworkPacket) (h : ExitPacketHandler) → Keeps h (handle p h).0
  handle-Keeps p h =
      Keeps-same h _ (ap (λ (x : ExitPacketHandler). x.handled_packets) (handle-echo p h).0)

  respond-Keeps :
      (r : Result ExitNetworkError Bytes) (h : ExitPacketHandler) → Keeps h (respond lib r h).0
  unfolding respond
  respond-Keeps (err e) h = Keeps-same h h refl
  respond-Keeps (ok bs) h =
      on_ok-Keeps (validate_packet bs h) pass_through h (λ p. pass_through-Keeps p h)

  validate_bound_payload-Keeps :
      (id : SessionId) (bs : Bytes) (c : ForwardingContext PeerId)
      (b : ExitForwardingBinding PeerId) (h : ExitPacketHandler)
      → Keeps h (validate_bound_payload lib id bs c b h).0
  unfolding validate_bound_payload
  validate_bound_payload-Keeps id bs c b h =
      on_ok-Keeps (check_payload lib bs c b h) (λ u. once lib id (done lib)) h
        (λ u. once-Keeps id (done lib) h (λ h'. Keeps-same h' h' refl))

  -- The calls between an opening and a closing.
  pub data Call : Type 0 where
    handles enqueues : NetworkPacket → Call
    handles_bound :
        SessionId → NetworkPacket → ForwardingContext PeerId → ExitForwardingBinding PeerId → Call
    exchanges :
        Result ExitNetworkError Bytes
        → SessionId
        → NetworkPacket
        → ForwardingContext PeerId
        → ExitForwardingBinding PeerId
        → Call
    exchanges_payload :
        Result ExitNetworkError Bytes
        → SessionId
        → Bytes
        → ForwardingContext PeerId
        → ExitForwardingBinding PeerId
        → Call
    validates : SessionId → Bytes → ForwardingContext PeerId → ExitForwardingBinding PeerId → Call
    takes : Call

  unfoldable pub apply : Call → ExitPacketHandler → ExitPacketHandler
  apply (handles p) h = (handle p h).0
  apply (enqueues p) h = (enqueue_response p h).0
  apply (handles_bound id p c b) h = (handle_bound lib id p c b h).0
  apply (exchanges r id p c b) h = (handle_bound_with_adapter lib (λ bs. r) id p c b h).0
  apply (exchanges_payload r id bs c b) h =
      (handle_bound_with_adapter_payload lib (λ bs'. r) id bs c b h).0
  apply (validates id bs c b) h = (validate_bound_payload lib id bs c b h).0
  apply takes h = (take_response h).0

  unfoldable pub run : List Call → ExitPacketHandler → ExitPacketHandler
  unfolding apply
  run [] h = h
  run (call ∷ calls) h = run calls (apply call h)

  apply-Keeps : (call : Call) (h : ExitPacketHandler) → Keeps h (apply call h)
  unfolding apply
  apply-Keeps (handles p) h = handle-Keeps p h
  apply-Keeps (enqueues p) h = enqueue_response-Keeps p h
  apply-Keeps (handles_bound id p c b) h =
      unfold handle_bound in bound-Keeps id c b (handle p) h (handle-Keeps p)
  apply-Keeps (exchanges r id p c b) h =
      unfold handle_bound_with_adapter in bound-Keeps id c b (respond lib r) h (respond-Keeps r)
  apply-Keeps (exchanges_payload r id bs c b) h =
      unfold handle_bound_with_adapter_payload in
      bound-Keeps id c b (give r) h (λ h'. Keeps-same h' h' refl)
  apply-Keeps (validates id bs c b) h = validate_bound_payload-Keeps id bs c b h
  apply-Keeps takes h = take_response-Keeps h

  run-Keeps : (calls : List Call) (h : ExitPacketHandler) → Keeps h (run calls h)
  unfolding run Keeps
  run-Keeps [] h id k = k
  run-Keeps (call ∷ calls) h id k = run-Keeps calls (apply call h) id (apply-Keeps call h id k)

  validate_bound_payload-taken :
      (id : SessionId) (bs : Bytes) (c : ForwardingContext PeerId)
      (b : ExitForwardingBinding PeerId) (h : ExitPacketHandler)
      → (validate_bound_payload lib id bs c b h).1 ≡ ok tt
      → contains_key id (validate_bound_payload lib id bs c b h).0.handled_packets ≡ true
  unfolding validate_bound_payload once
  validate_bound_payload-taken id bs c b h e = elim (Result-cases (check_payload lib bs c b h)) [
    | inr (x, failed) ↦ absurd (ground arith)
    | inl (u, checked) ↦ elim (Bool-cases (contains_key id h.handled_packets)) [
      | inl old ↦ absurd (ground arith)
      | inr new ↦ rw (checked, new) (contains_key-insert_same id tt h.handled_packets)
    ]
  ]

  -- A packet whose identifier was taken is not taken again.
  bound-ne-ok :
      {A : Type 0} (id : SessionId) (c : ForwardingContext PeerId)
      (b : ExitForwardingBinding PeerId) (next : ExitPacketHandler → Answer A)
      (h : ExitPacketHandler)
      → contains_key id h.handled_packets ≡ true
      → (a : A) → (bound lib id c b next h).1 ≢ ok a
  unfolding bound once
  bound-ne-ok id c b next h known a e = elim (Result-cases (check_bound lib c b h)) [
    | inr (x, failed) ↦ ground arith
    | inl (u, checked) ↦ ground arith
  ]

  validate_bound_payload-ne-ok :
      (id : SessionId) (bs : Bytes) (c : ForwardingContext PeerId)
      (b : ExitForwardingBinding PeerId) (h : ExitPacketHandler)
      → contains_key id h.handled_packets ≡ true
      → (validate_bound_payload lib id bs c b h).1 ≢ ok tt
  unfolding validate_bound_payload once
  validate_bound_payload-ne-ok id bs c b h known e =
      elim (Result-cases (check_payload lib bs c b h)) [
        | inr (x, failed) ↦ ground arith
        | inl (u, checked) ↦ ground arith
      ]

  -- Once a payload was taken under an identifier, no method that binds a packet to a context takes
  -- another under it, whatever other calls come between, until the handler is closed.
  pub validate_bound_payload_once :
      (id : SessionId) (bs : Bytes) (c : ForwardingContext PeerId)
      (b : ExitForwardingBinding PeerId) (h : ExitPacketHandler) (calls : List Call) (bs' r : Bytes)
      (p a : NetworkPacket) (c' : ForwardingContext PeerId) (b' : ExitForwardingBinding PeerId)
      (exchange : Bytes → Result ExitNetworkError Bytes)
      → (validate_bound_payload lib id bs c b h).1 ≡ ok tt
      → (let h' = run calls (validate_bound_payload lib id bs c b h).0 in
          ((validate_bound_payload lib id bs' c' b' h').1 ≢ ok tt)
          × ((handle_bound lib id p c' b' h').1 ≢ ok a)
          × ((handle_bound_with_adapter lib exchange id p c' b' h').1 ≢ ok a)
          × ((handle_bound_with_adapter_payload lib exchange id bs' c' b' h').1 ≢ ok r))
  unfolding handle_bound handle_bound_with_adapter handle_bound_with_adapter_payload Keeps
  validate_bound_payload_once id bs c b h calls bs' r p a c' b' exchange taken =
      let h₁ = (validate_bound_payload lib id bs c b h).0 in
      let known = run-Keeps calls h₁ id (validate_bound_payload-taken id bs c b h taken) in
      let h₂ = run calls h₁ in
      (
        validate_bound_payload-ne-ok id bs' c' b' h₂ known,
        bound-ne-ok id c' b' (handle p) h₂ known a,
        bound-ne-ok id c' b' (respond lib (exchange p.bytes)) h₂ known a,
        bound-ne-ok id c' b' (give (exchange bs')) h₂ known r,
      )
