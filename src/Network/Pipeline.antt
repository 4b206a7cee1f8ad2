-- ===== src/Network/Pipeline.antt =====
-- network/src/pipeline.rs: packets from the tunnel into the data plane. `PacketPipeline` borrows its
-- data plane, so a call returns the plane after it.
pub mod Leaks
use real_layer.Base.Bytes.{Bytes}
use real_layer.Base.{Result, ok, err, Fault, error, ◌>>=◌, map_err}
use real_layer.Network.Session.Primitives.{Primitives}
use real_layer.Network.Channel.Types.{Codec}
use real_layer.Network.Packet.{NetworkPacket, MtuPolicy, MtuError, validate, map_fault}
use real_layer.Network.Routing.{
  DestinationClass, RoutingDecision, RoutingError, through_ghost_layer, local_system, drop_packet,
  classify_destination, decide,
}
use real_layer.Network.DataPlane
use real_layer.Network.DataPlane.{
  DataPlane, DataPlaneEnvelope, DataPlaneError, data_plane_kind, session_id,
}

pub data PipelineError : Type 0 where
  mtu : MtuError → PipelineError
  routing : RoutingError → PipelineError
  data_plane : DataPlaneError → PipelineError
  dropped : DestinationClass → PipelineError
  unsupported_destination : PipelineError

-- `classify_destination(&packet)?`, with the error converted.
abbrev pub class_of : NetworkPacket → Result (Fault PipelineError) DestinationClass
class_of packet = map_err (map_fault routing) (classify_destination packet)

-- The `match decision` of `route`.
unfoldable pub admit :
    NetworkPacket
    → DestinationClass
    → RoutingDecision
    → Result (Fault PipelineError) (NetworkPacket × RoutingDecision)
admit packet class RoutingDecision.unsupported = err (error unsupported_destination)
admit packet class drop_packet = err (error (dropped class))
admit packet class decision = ok (packet, decision)

unfoldable pub route :
    MtuPolicy → Bytes → Result (Fault PipelineError) (NetworkPacket × RoutingDecision)
unfolding admit
route policy bytes = do
  packet ← map_err (map_fault mtu) (validate policy bytes)
  class ← class_of packet
  admit packet class (decide class)

module _ (lib : Primitives) (json : Codec) where
  open lib use {PeerId}

  -- `Err(Dropped(classify_destination(&packet)?))`
  unfoldable pub refuse : NetworkPacket → Result (Fault PipelineError) DataPlaneEnvelope
  refuse packet = do class ← class_of packet; err (error (dropped class))

  -- The frame that the plane returned, in its envelope.
  unfoldable pub envelop :
      DataPlane PeerId
      → Result DataPlaneError Bytes
      → DataPlane PeerId × Result (Fault PipelineError) DataPlaneEnvelope
  envelop plane (err e) = (plane, err (error (data_plane e)))
  envelop plane (ok frame) = (
    plane,
    ok (record { kind = data_plane_kind; session_id = session_id lib json plane; frame = frame }),
  )

  -- From the routing decision on.
  unfoldable pub dispatch :
      DataPlane PeerId
      → NetworkPacket
      → RoutingDecision
      → DataPlane PeerId × Result (Fault PipelineError) DataPlaneEnvelope
  unfolding refuse envelop
  dispatch plane packet through_ghost_layer =
      let (plane', r) = DataPlane.send lib json plane packet.bytes in envelop plane' r
  dispatch plane packet decision = (plane, refuse packet)

  unfoldable pub send :
      MtuPolicy
      → DataPlane PeerId
      → Bytes
      → DataPlane PeerId × Result (Fault PipelineError) DataPlaneEnvelope
  unfolding dispatch
  send policy plane bytes = elim (route policy bytes) [
    | err e ↦ (plane, err e)
    | ok (packet, decision) ↦ dispatch plane packet decision
  ]
