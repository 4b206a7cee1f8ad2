-- ===== src/Tests/Packets.antt =====
-- Packets, routing and the pipeline on concrete packets.
use real_layer.Base.Bytes.{Bytes}
use real_layer.Base.{◌≡◌, ◌↔◌, [], ◌∷◌, ◌++◌, ok, arith, replicate}
use real_layer.Network.Address.{v4}
use real_layer.Network.Packet.{ipv4, new, MtuPolicy}
use real_layer.Network.Packet.Validity.{IsPacket, new-eq-ok_iff}
use real_layer.Network.Routing.{classify_address}
use real_layer.Network.Routing.Blocks.{class_in, v4_blocks, dotted, classify_address-v4}

-- An IPv4 packet to 8.8.8.8.
abbrev datagram : Bytes
datagram = 0x45 ∷ replicate 15 0 ++ (8 ∷ 8 ∷ 8 ∷ 8 ∷ [])

abbrev policy : MtuPolicy
policy = record { tunnel_mtu = 1500; maximum_packet_size = 1400 }

new-eq-ok_iff_example :
    (new datagram 1400 1500 ≡ ok (record { bytes = datagram; packet_type = ipv4 }))
    ↔ IsPacket 1400 1500 (record { bytes = datagram; packet_type = ipv4 })
new-eq-ok_iff_example = new-eq-ok_iff datagram 1400 1500 ipv4

classify_address-v4_example :
    classify_address (v4 172 20 0 1) ≡ class_in 32 v4_blocks (dotted 172 20 0 1)
classify_address-v4_example =
    classify_address-v4 172 20 0 1 (ground arith) (ground arith) (ground arith) (ground arith)
