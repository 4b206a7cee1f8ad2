-- ===== src/Network/Pipeline/Leaks.antt =====
-- Which packets of network/src/pipeline.rs reach the data plane.
use real_layer.Base.Bytes.{Bytes}
use real_layer.Base.{
  ◌≡◌, ◌≢◌, refl, sym, ◌∙◌, Result, ok, err, error, panic, arith, Result-cases, inl, inr,
}
use real_layer.Network.Session.Primitives.{Primitives}
use real_layer.Network.Channel.Types.{Codec}
use real_layer.Network.Packet.{NetworkPacket, MtuPolicy, validate, new}
use real_layer.Network.Packet.Validity.{IsPacket, new-IsPacket, new-ne-panic}
use real_layer.Network.Routing.{
  DestinationClass, RoutingDecision, public, through_ghost_layer, classify_destination, decide,
}
use real_layer.Network.Routing.Decisions.{classify_destination-total}
use real_layer.Network.DataPlane.{DataPlane, DataPlaneEnvelope}
use real_layer.Network.DataPlane as Plane
use real_layer.Network.Pipeline.{
  PipelineError, dropped, unsupported_destination, route, refuse, envelop, dispatch, send,
}

validate-new :
    (policy : MtuPolicy) (bytes : Bytes) (p : NetworkPacket)
    → validate policy bytes ≡ ok p
    → new bytes policy.maximum_packet_size policy.tunnel_mtu ≡ ok p
unfolding validate
validate-new policy bytes p h =
    elim (Result-cases (new bytes policy.maximum_packet_size policy.tunnel_mtu)) [
      | inl (q, e) ↦ ground (arith, e)
      | inr (x, e) ↦ ground (arith, e)
    ]

-- A routed packet is a valid packet over the given bytes, with the decision for its class.
route-ok :
    (policy : MtuPolicy) (bytes : Bytes) (p : NetworkPacket) (d : RoutingDecision)
    → route policy bytes ≡ ok (p, d)
    → (class : DestinationClass) × (validate policy bytes ≡ ok p)
      × (classify_destination p ≡ ok class)
      × (d ≡ decide class)
unfolding route
route-ok policy bytes p d h = elim (Result-cases (validate policy bytes)) [
  | inr (x, e) ↦ ground (arith, e)
  | inl (q, e) ↦ elim (Result-cases (classify_destination q)) [
    | inr (x, e') ↦ ground (arith, e, e')
    | inl (class, e') ↦ (class, ground (arith, e, e'), ground (arith, e, e'), ground (arith, e, e'))
  ]
]

-- No byte string makes the routing panic.
route-ne-panic : (policy : MtuPolicy) (bytes : Bytes) → route policy bytes ≢ err panic
unfolding route validate
route-ne-panic policy bytes h =
    elim (Result-cases (new bytes policy.maximum_packet_size policy.tunnel_mtu)) [
      | inr (x, e) ↦
          ground (arith, e, new-ne-panic bytes policy.maximum_packet_size policy.tunnel_mtu)
      | inl (p, e) ↦
          let (class, e') =
            classify_destination-total bytes policy.maximum_packet_size policy.tunnel_mtu p e in
          ground (arith, e, e')
    ]

decide-through : (class : DestinationClass) → decide class ≡ through_ghost_layer → class ≡ public
unfolding decide
decide-through class h = ground arith

module _ (lib : Primitives) (json : Codec) where
  open lib use {PeerId}

  -- The plane's answer is in the envelope.
  envelop-ok :
      (plane plane' : DataPlane PeerId) (r : Result Plane.DataPlaneError Bytes)
      (envelope : DataPlaneEnvelope)
      → envelop lib json plane r ≡ (plane', ok envelope)
      → (plane' ≡ plane) × (r ≡ ok envelope.frame)
  unfolding envelop
  envelop-ok plane plane' (err e) envelope h = ground arith
  envelop-ok plane plane' (ok frame) envelope h = ground arith

  refuse-ne-ok :
      (p : NetworkPacket) (envelope : DataPlaneEnvelope) → refuse lib json p ≢ ok envelope
  unfolding refuse
  refuse-ne-ok p envelope h = elim (Result-cases (classify_destination p)) [
    | inl (c, e) ↦ ground (arith, e)
    | inr (x, e) ↦ ground (arith, e)
  ]

  dispatch-ok :
      (plane plane' : DataPlane PeerId) (p : NetworkPacket) (d : RoutingDecision)
      (envelope : DataPlaneEnvelope)
      → dispatch lib json plane p d ≡ (plane', ok envelope)
      → (d ≡ through_ghost_layer)
        × (Plane.send lib json plane p.bytes ≡ (plane', ok envelope.frame))
  unfolding dispatch
  dispatch-ok plane plane' p through_ghost_layer envelope h =
      let (same, e) =
        envelop-ok (Plane.send lib json plane p.bytes).0 plane'
          (Plane.send lib json plane p.bytes).1 envelope h in
      (refl, ground (arith, same, e))
  dispatch-ok plane plane' p d envelope h = absurd (refuse-ne-ok p envelope (ground arith))

  -- What the pipeline sends is a packet over the given bytes, within the limits, to a public
  -- destination, and the envelope's frame is the data plane's for exactly these bytes.
  pub send-public :
      (policy : MtuPolicy) (plane plane' : DataPlane PeerId) (bytes : Bytes)
      (envelope : DataPlaneEnvelope)
      → send lib json policy plane bytes ≡ (plane', ok envelope)
      → (p : NetworkPacket) × (p.bytes ≡ bytes)
        × IsPacket policy.maximum_packet_size policy.tunnel_mtu p
        × (classify_destination p ≡ ok public)
        × (Plane.send lib json plane bytes ≡ (plane', ok envelope.frame))
  unfolding send
  send-public policy plane plane' bytes envelope h = elim (Result-cases (route policy bytes)) [
    | inr (x, e) ↦ ground (arith, e)
    | inl ((p, d), e) ↦
        let (class, valid, classified, decided) = route-ok policy bytes p d e in
        let (same, fits) =
          new-IsPacket bytes policy.maximum_packet_size policy.tunnel_mtu p
            (validate-new policy bytes p valid) in
        let (through, sent) = dispatch-ok plane plane' p d envelope (rw (e, send) at h) in
        (
          p,
          same,
          fits,
          rw (← decide-through class (sym decided ∙ through)) classified,
          rw same at sent,
        )
  ]

  abbrev pub refusal : DestinationClass → PipelineError
  refusal DestinationClass.unsupported = unsupported_destination
  refusal class = dropped class

  -- A valid packet to a destination that is not public is refused with its class, or as
  -- unsupported, and the data plane is untouched.
  send-not_public :
      (policy : MtuPolicy) (plane : DataPlane PeerId) (bytes : Bytes) (p : NetworkPacket)
      (class : DestinationClass)
      → validate policy bytes ≡ ok p
      → classify_destination p ≡ ok class
      → class ≢ public
      → send lib json policy plane bytes ≡ (plane, err (error (refusal class)))
  unfolding send route decide
  send-not_public policy plane bytes p class valid classified other =
      ground (arith, valid, classified)
