-- ===== src/Network/Routing.antt =====
-- network/src/routing.rs: where a packet goes, by its destination address.
-- `classify_destination` is split: `destination` reads the address out of the packet, and
-- `classify_address` is the `match` on it. `x & mask == y` at a mask of leading ones is written as a
-- division by the remaining power of two.
pub mod Blocks
pub mod Decisions
use real_layer.Base.Bytes.{Bytes}
use real_layer.Base.{
  ℕ, ◌*◌, ◌/◌, ◌%◌, ◌||◌, Result, ok, err, Fault, error, ◌>>=◌, ◌>>◌, reject, index, ltb, ◌==◌,
  nat_eq, length, take, drop, if◌then◌else◌,
}
use real_layer.Network.Packet.{NetworkPacket, PacketType, ipv4, ipv6}
use real_layer.Network.Address.{IpAddr, v4, v6}
use real_layer.Network.Address.Ipv4
use real_layer.Network.Address.Ipv6

pub data DestinationClass : Type 0 where
  loopback private link_local multicast broadcast public unsupported : DestinationClass

pub data RoutingDecision : Type 0 where
  through_ghost_layer local_system drop_packet unsupported : RoutingDecision

pub data RoutingError : Type 0 where
  malformed_packet unsupported_packet : RoutingError

unfoldable pub read_v4 : Bytes → Result (Fault RoutingError) IpAddr
read_v4 bytes = do
  first ← index bytes 0
  let header_length = first % 16 * 4
  reject (ltb (length bytes) 20 || ltb (length bytes) header_length) (error malformed_packet)
  a ← index bytes 16
  b ← index bytes 17
  c ← index bytes 18
  d ← index bytes 19
  ok (v4 a b c d)

unfoldable pub read_v6 : Bytes → Result (Fault RoutingError) IpAddr
read_v6 bytes = do
  reject (ltb (length bytes) 40) (error malformed_packet)
  ok (v6 (take 16 (drop 24 bytes)))

unfoldable pub destination : NetworkPacket → Result (Fault RoutingError) IpAddr
unfolding read_v4 read_v6
destination packet = elim packet.packet_type [
  | ipv4 ↦ read_v4 packet.bytes
  | ipv6 ↦ read_v6 packet.bytes
]

unfoldable pub classify_address : IpAddr → DestinationClass
unfolding Ipv4.is_loopback Ipv4.is_private Ipv4.is_link_local Ipv4.is_multicast Ipv4.is_broadcast
    Ipv4.is_unspecified
classify_address (v4 a b c d) =
    if Ipv4.is_loopback a b c d
    then loopback
    else if Ipv4.is_private a b c d
    then private
    else if Ipv4.is_link_local a b c d
    then link_local
    else if Ipv4.is_multicast a b c d
    then multicast
    else if Ipv4.is_broadcast a b c d
    then broadcast
    else if Ipv4.is_unspecified a b c d
    then DestinationClass.unsupported
    else public
classify_address (v6 octets) =
    if Ipv6.is_loopback octets
    then loopback
    else if Ipv6.first_segment octets / 512 * 512 == 0xfc00
    then private
    else if Ipv6.first_segment octets / 64 * 64 == 0xfe80
    then link_local
    else if Ipv6.is_multicast octets
    then multicast
    else if Ipv6.is_unspecified octets
    then DestinationClass.unsupported
    else public

unfoldable pub classify_destination : NetworkPacket → Result (Fault RoutingError) DestinationClass
classify_destination packet = do address ← destination packet; ok (classify_address address)

unfoldable pub decide : DestinationClass → RoutingDecision
decide public = through_ghost_layer
decide loopback = local_system
decide private = local_system
decide link_local = local_system
decide multicast = drop_packet
decide broadcast = drop_packet
decide DestinationClass.unsupported = RoutingDecision.unsupported
