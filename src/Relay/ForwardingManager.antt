-- ===== src/Relay/ForwardingManager.antt =====
-- relay/src/forwarding_manager.rs: the relay's table of circuits. `contexts.entry(id).or_insert(context)`
-- keeps a context that is there.
pub mod Flows
use real_layer.Base.{
  ℕ, Bool, true, false, [], Option, none, some, Result, ok, err, ◌>>=◌, ◌>>◌, ok_or, Eq, ◌==◌,
  nat_eq, list_eq, leb, length, if◌then◌else◌,
}
use real_layer.Base.Map.{Map, get, insert, remove, contains_key}
use real_layer.Network.Session.Types.{SessionId}
use real_layer.Network.Session.Primitives.{Primitives}
use real_layer.Relay.Forwarding.{
  ForwardingContext, ForwardingMessage, ForwardedPacket, ForwardingError, backpressure,
  invalid_forwarding_context, validate_message, validate_packet,
}

pub record ForwardingManager (P : Type 0) : Type 0 where
  pub contexts : Map SessionId (ForwardingContext P)
  pub maximum_flows : ℕ

module _ (lib : Primitives) where
  open lib use {PeerId}

  unfoldable pub new_manager : ℕ → Result ForwardingError (ForwardingManager PeerId)
  new_manager maximum_flows =
      if maximum_flows == 0
      then err backpressure
      else ok (record { contexts = []; maximum_flows = maximum_flows })

  unfoldable pub admit_flow :
      ForwardingContext PeerId
      → ForwardingManager PeerId
      → ForwardingManager PeerId × Result ForwardingError (Unit {0})
  admit_flow c m =
      if leb m.maximum_flows (length m.contexts)
      then (m, err backpressure)
      else if contains_key c.forwarding_id m.contexts
      then (m, ok tt)
      else (record m { contexts = insert c.forwarding_id c m.contexts }, ok tt)

  unfoldable pub validate_flow :
      ForwardingMessage PeerId
      → ForwardingManager PeerId
      → Result ForwardingError (ForwardingContext PeerId)
  validate_flow message m = do
    context ← ok_or (get message.forwarding_id m.contexts) invalid_forwarding_context
    validate_message lib message context
    ok context

  unfoldable pub validate_flow_packet :
      ForwardedPacket → ForwardingManager PeerId → Result ForwardingError (Unit {0})
  validate_flow_packet packet m = do
    context ← ok_or (get packet.flow_id m.contexts) invalid_forwarding_context
    validate_packet lib packet context

  unfoldable pub remove_flow : SessionId → ForwardingManager PeerId → ForwardingManager PeerId
  remove_flow id m = record m { contexts = remove id m.contexts }
