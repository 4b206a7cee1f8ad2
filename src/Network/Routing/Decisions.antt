-- ===== src/Network/Routing/Decisions.antt =====
-- `classify_destination` on the packets that `NetworkPacket::new` makes.
use real_layer.Base.Bytes.{Bytes}
use real_layer.Base.{ℕ, ◌≡◌, ◌∷◌, [], ok, arith, get_elem?-some, take, drop}
use real_layer.Network.Packet.{NetworkPacket, PacketType, ipv4, ipv6, new}
use real_layer.Network.Packet.Validity.{HasHeader, new-IsPacket}
use real_layer.Network.Address.{IpAddr}
use real_layer.Network.Routing.{
  DestinationClass, read_v4, destination, classify_address, classify_destination,
}

read_v4-total :
    (bytes : Bytes) → HasHeader ipv4 bytes → (address : IpAddr) × (read_v4 bytes ≡ ok address)
unfolding read_v4
read_v4-total (b ∷ bs) h =
    let (o₁, e₁) = get_elem?-some (b ∷ bs) 16 (omega arith) in
    let (o₂, e₂) = get_elem?-some (b ∷ bs) 17 (omega arith) in
    let (o₃, e₃) = get_elem?-some (b ∷ bs) 18 (omega arith) in
    let (o₄, e₄) = get_elem?-some (b ∷ bs) 19 (omega arith) in (IpAddr.v4 o₁ o₂ o₃ o₄, ground arith)
read_v4-total [] h = absurd h

destination-total :
    (bytes : Bytes) (t : PacketType)
    → HasHeader t bytes
    → (address : IpAddr) × (destination (record { bytes = bytes; packet_type = t }) ≡ ok address)
unfolding destination
destination-total bytes ipv4 h = read_v4-total bytes h
destination-total [] ipv6 h = absurd h
destination-total (b ∷ bs) ipv6 h = (IpAddr.v6 (take 16 (drop 24 (b ∷ bs))), ground arith)

-- Every packet that `new` accepts has a class: reading its address neither fails nor panics.
pub classify_destination-total :
    (bytes : Bytes) (maximum_size mtu : ℕ) (p : NetworkPacket)
    → new bytes maximum_size mtu ≡ ok p
    → (class : DestinationClass) × (classify_destination p ≡ ok class)
unfolding classify_destination
classify_destination-total bytes maximum_size mtu p h =
    let (same, valid) = new-IsPacket bytes maximum_size mtu p h in
    let (address, e) = destination-total p.bytes p.packet_type valid.header in
    (classify_address address, ground (arith, e))
