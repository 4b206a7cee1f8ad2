-- ===== src/Client/DnsPackets/Datagrams.antt =====
-- The UDP part of `extract_dns_payload`.
use real_layer.Base.Bytes.{Bytes, from_be_bytes}
use real_layer.Base.{
  ℕ, ◌+◌, ◌*◌, ◌/◌, ◌%◌, ◌≤◌, ◌<◌, ◌≡◌, refl, sym, ap, ◌∙◌, [], ◌∷◌, ◌++◌, some, ok, error, arith,
  ltb, ◌==◌, nat_eq, length, drop, get_elem?, false, get_elem?-drop, drop-append, drop-drop,
  length-drop, length-append, ap, ◌>>◌, ensure,
}
use real_layer.Network.Address.{IpAddr, v4}
use real_layer.Client.DnsPackets.{extract_udp, read_u16, Octets}

-- A UDP datagram from the byte `n` on: its ports, length and checksum in two bytes each.
pub record Datagram (packet : Bytes) (n src_port dst_port : ℕ) (payload : Bytes) : Type 0 where
  pub src_high : ℕ
  pub src_low : ℕ
  pub dst_high : ℕ
  pub dst_low : ℕ
  pub others : Bytes
  pub layout : drop n packet ≡ src_high ∷ src_low ∷ dst_high ∷ dst_low ∷ (others ++ payload)
  pub four : length others ≡ 4
  pub src : src_high * 256 + src_low ≡ src_port
  pub dst : dst_high * 256 + dst_low ≡ dst_port

-- A datagram to port 53 where the header's length, in words the low half of the first byte, points to,
-- in a packet that is marked as IPv4 and UDP.
pub record Points (packet : Bytes) (ip : IpAddr) (src_port : ℕ) (payload : Bytes) : Type 0 where
  pub long : 28 ≤ length packet
  pub first : ℕ
  pub first_at : get_elem? packet 0 ≡ some first
  pub version : first / 16 ≡ 4
  pub protocol : get_elem? packet 9 ≡ some 17
  pub octets : Octets
  pub octets_at :
      (get_elem? packet 16 ≡ some octets.0)
      × (get_elem? packet 17 ≡ some octets.1)
      × (get_elem? packet 18 ≡ some octets.2)
      × (get_elem? packet 19 ≡ some octets.3)
  pub same_ip : v4 octets.0 octets.1 octets.2 octets.3 ≡ ip
  pub datagram : Datagram packet (first % 16 * 4) src_port 53 payload

-- An IPv4 packet with a UDP datagram to port 53: the header has five words at least.
pub record IsDnsPacket (packet : Bytes) (ip : IpAddr) (src_port : ℕ) (payload : Bytes)
    : Type 0 where
  pub points : Points packet ip src_port payload
  pub whole : 5 ≤ points.first % 16

-- No IPv4 packet: the length of the header is less than a header has, and the ports are read inside
-- the header.
pub record IsMisread (packet : Bytes) (ip : IpAddr) (src_port : ℕ) (payload : Bytes) : Type 0 where
  pub points : Points packet ip src_port payload
  pub cut : points.first % 16 < 5

-- Eight bytes are there to read.
pub datagram_at :
    (packet : Bytes) (n : ℕ) (bs : Bytes)
    → drop n packet ≡ bs
    → 8 ≤ length bs
    → (src_port : ℕ) × (dst_port : ℕ) × Datagram packet n src_port dst_port (drop 8 bs)
datagram_at packet n (s ∷ t ∷ u ∷ v ∷ w ∷ x ∷ y ∷ z ∷ bs) d h = (
  s * 256 + t,
  u * 256 + v,
  record {
    src_high = s;
    src_low = t;
    dst_high = u;
    dst_low = v;
    others = w ∷ x ∷ y ∷ z ∷ [];
    layout = d;
    four = refl;
    src = refl;
    dst = refl;
  },
)
datagram_at packet n bs d h = absurd (omega arith)

module _ {packet : Bytes} {n src_port dst_port : ℕ} {payload : Bytes} where
  datagram_size : Datagram packet n src_port dst_port payload → n + 8 ≤ length packet
  datagram_size d =
      omega
        (arith, ap length d.layout, length-drop n packet, length-append d.others payload, d.four)

  datagram_payload : Datagram packet n src_port dst_port payload → drop (n + 8) packet ≡ payload
  datagram_payload d =
      sym (drop-drop 8 n (n + 8) packet refl)
      ∙ rw d.layout (drop-append 4 d.others payload (sym d.four))

  read_u16-src :
      {E : Type 0}
      → Datagram packet n src_port dst_port payload
      → read_u16 {E = E} packet n ≡ ok src_port
  unfolding read_u16 from_be_bytes
  read_u16-src d =
      rw
        (
          get_elem?-drop packet _ n 0 n d.layout (omega arith),
          get_elem?-drop packet _ n 1 (n + 1) d.layout refl,
        )
        (ap ok (omega (arith, d.src)))

  read_u16-dst :
      {E : Type 0}
      → Datagram packet n src_port dst_port payload
      → read_u16 {E = E} packet (n + 2) ≡ ok dst_port
  unfolding read_u16 from_be_bytes
  read_u16-dst d =
      rw
        (
          get_elem?-drop packet _ n 2 (n + 2) d.layout refl,
          get_elem?-drop packet _ n 3 (n + 2 + 1) d.layout (omega arith),
        )
        (ap ok (omega (arith, d.dst)))

  -- What is read from a datagram.
  pub extract_udp-at :
      (o : Octets)
      → Datagram packet n src_port dst_port payload
      → (get_elem? packet 16 ≡ some o.0)
        × (get_elem? packet 17 ≡ some o.1)
        × (get_elem? packet 18 ≡ some o.2)
        × (get_elem? packet 19 ≡ some o.3)
      → extract_udp packet n ≡ (
          ensure (dst_port == 53) (error tt)
          >> ok (record { ip = v4 o.0 o.1 o.2 o.3; port = 53 }, src_port, payload))
  unfolding extract_udp
  extract_udp-at o d (e₀, e₁, e₂, e₃) =
      let size = datagram_size d in
      rw (le→ltb size, read_u16-src d, read_u16-dst d, e₀, e₁, e₂, e₃, datagram_payload d) refl
    where
      le→ltb : n + 8 ≤ length packet → ltb (length packet) (n + 8) ≡ false
      le→ltb h = ground arith
