-- ===== src/Network/Packet/Validity.antt =====
-- Which byte strings are packets: a description of what `NetworkPacket::new` accepts that does not
-- follow its order of tests.
use real_layer.Base.Bytes.{Bytes}
use real_layer.Base.{
  ℕ, ◌*◌, ◌/◌, ◌%◌, ◌≤◌, ◌≡◌, ◌≢◌, ◌↔◌, [], ◌∷◌, ok, err, error, panic, arith, length,
}
use real_layer.Network.Packet.{
  packet, exceeds_mtu, PacketType, ipv4, ipv6, NetworkPacket, new, MtuPolicy, new_policy, validate,
}

-- The first byte carries the version and, for IPv4, the header's length in words.
abbrev pub HasHeader : PacketType → Bytes → Type 0
HasHeader t [] = ⊥
HasHeader ipv4 (b ∷ bs) = (b / 16 ≡ 4) × (20 ≤ b % 16 * 4) × (b % 16 * 4 ≤ length (b ∷ bs))
HasHeader ipv6 (b ∷ bs) = (b / 16 ≡ 6) × (40 ≤ length (b ∷ bs))

-- A packet that fits both limits.
pub record IsPacket (maximum_size mtu : ℕ) (p : NetworkPacket) : Type 0 where
  pub fits_maximum : length p.bytes ≤ maximum_size
  pub fits_mtu : length p.bytes ≤ mtu
  pub header : HasHeader p.packet_type p.bytes

-- IPv4 and IPv6 packets that fit the limits are accepted, with their type, and nothing else is.
pub new-eq-ok_iff :
    (bytes : Bytes) (maximum_size mtu : ℕ) (t : PacketType)
    → (new bytes maximum_size mtu ≡ ok (record { bytes = bytes; packet_type = t }))
      ↔ IsPacket maximum_size mtu (record { bytes = bytes; packet_type = t })
unfolding new
new-eq-ok_iff [] maximum_size mtu t = (λ h. ground arith, λ h. absurd h.header)
new-eq-ok_iff (b ∷ bs) maximum_size mtu ipv4 = (λ h. ground arith, λ h. ground arith)
new-eq-ok_iff (b ∷ bs) maximum_size mtu ipv6 = (λ h. ground arith, λ h. ground arith)

-- No byte string makes `new` index out of bounds.
pub new-ne-panic : (bytes : Bytes) (maximum_size mtu : ℕ) → new bytes maximum_size mtu ≢ err panic
unfolding new
new-ne-panic [] maximum_size mtu h = ground arith
new-ne-panic (b ∷ bs) maximum_size mtu h = ground arith

-- A packet that `new` returns holds the bytes that it was given, and is a packet within the limits.
pub new-IsPacket :
    (bytes : Bytes) (maximum_size mtu : ℕ) (p : NetworkPacket)
    → new bytes maximum_size mtu ≡ ok p
    → (p.bytes ≡ bytes) × IsPacket maximum_size mtu p
unfolding new
new-IsPacket [] maximum_size mtu p h = ground arith
new-IsPacket (b ∷ bs) maximum_size mtu p h = ground arith

-- Under a policy that `MtuPolicy::new` made, no packet is refused for the tunnel's MTU: the maximum
-- packet size refuses it first.
validate-ne-exceeds_mtu :
    (tunnel_mtu maximum_packet_size : ℕ) (policy : MtuPolicy) (bytes : Bytes) (size mtu : ℕ)
    → new_policy tunnel_mtu maximum_packet_size ≡ ok policy
    → validate policy bytes ≢ err (error (packet (exceeds_mtu size mtu)))
unfolding new_policy validate new
validate-ne-exceeds_mtu t m policy [] size mtu h e = ground arith
validate-ne-exceeds_mtu t m policy (b ∷ bs) size mtu h e = ground arith
