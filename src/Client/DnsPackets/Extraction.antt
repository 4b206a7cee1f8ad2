-- ===== src/Client/DnsPackets/Extraction.antt =====
-- `extract_dns_payload`: which packets it takes for DNS queries, and what it reads from them.
use real_layer.Base.Bytes.{Bytes}
use real_layer.Base.{
  ℕ, ◌+◌, ◌*◌, ◌/◌, ◌%◌, ◌≤◌, ◌<◌, ◌≡◌, ◌≢◌, ◌↔◌, ◌⊎◌, refl, ◌∙◌, some, ok, err, error, panic,
  arith, ltb, ◌==◌, nat_eq, length, drop, get_elem?, true, false, inl, inr, Bool-cases,
  get_elem?-some, ◌&&◌, length-drop, ◌>>◌, ensure,
}
use real_layer.Network.Address.{SocketAddr, IpAddr, v4}
use real_layer.Client.DnsPackets.{extract_dns_payload, extract_udp, Octets}
use real_layer.Client.DnsPackets.Datagrams.{
  Points, IsMisread, Datagram, IsDnsPacket, datagram_at, extract_udp-at,
}

-- The bytes of a header that is long enough.
octets_of :
    (packet : Bytes)
    → 28 ≤ length packet
    → (o : Octets) × ((get_elem? packet 16 ≡ some o.0)
        × (get_elem? packet 17 ≡ some o.1)
        × (get_elem? packet 18 ≡ some o.2)
        × (get_elem? packet 19 ≡ some o.3))
octets_of packet long =
    let (a, ea) = get_elem?-some packet 16 (omega (arith, long)) in
    let (b, eb) = get_elem?-some packet 17 (omega (arith, long)) in
    let (c, ec) = get_elem?-some packet 18 (omega (arith, long)) in
    let (d, ed) = get_elem?-some packet 19 (omega (arith, long)) in ((a, b, c, d), (ea, eb, ec, ed))

-- The start of the header passes the checks.
record Opening (packet : Bytes) (first : ℕ) : Type 0 where
  pub long : 28 ≤ length packet
  pub first_at : get_elem? packet 0 ≡ some first
  pub version : first / 16 ≡ 4
  pub protocol : get_elem? packet 9 ≡ some 17

extract-at :
    (packet : Bytes) (first : ℕ)
    → Opening packet first
    → extract_dns_payload packet ≡ extract_udp packet (first % 16 * 4)
unfolding extract_dns_payload
extract-at packet first h = ground (arith, h)

-- Without a start that passes the checks there is no result.
extract-none :
    (packet : Bytes)
    → ((first : ℕ) × Opening packet first) ⊎ (extract_dns_payload packet ≡ err (error tt))
unfolding extract_dns_payload
extract-none packet = elim (Bool-cases (ltb (length packet) 28)) [
  | inl shorter ↦ inr (ground arith)
  | inr longer ↦
      let long : 28 ≤ length packet = ground arith in
      go long (get_elem?-some packet 0 (omega (arith, long)))
        (get_elem?-some packet 9 (omega (arith, long)))
]
  where
    go :
        28 ≤ length packet
        → (f : ℕ) × (get_elem? packet 0 ≡ some f)
        → (p : ℕ) × (get_elem? packet 9 ≡ some p)
        → ((first : ℕ) × Opening packet first) ⊎ (extract_dns_payload packet ≡ err (error tt))
    go long (f, ef) (p, ep) = elim (Bool-cases (f / 16 == 4 && p == 17)) [
      | inl good ↦ inl (
        f,
        record { long = long; first_at = ef; version = ground arith; protocol = ground arith },
      )
      | inr bad ↦ inr (ground arith)
    ]

-- What the packet gives, where its start passes the checks.
data Outcome (packet : Bytes) (first : ℕ) : Type 0 where
  short :
      length packet < first % 16 * 4 + 8
      → extract_dns_payload packet ≡ err (error tt)
      → Outcome packet first
  read :
      (o : Octets) (src_port dst_port : ℕ) (payload : Bytes)
      → (get_elem? packet 16 ≡ some o.0)
        × (get_elem? packet 17 ≡ some o.1)
        × (get_elem? packet 18 ≡ some o.2)
        × (get_elem? packet 19 ≡ some o.3)
      → Datagram packet (first % 16 * 4) src_port dst_port payload
      → extract_dns_payload packet ≡ (
          ensure (dst_port == 53) (error tt)
          >> ok (record { ip = v4 o.0 o.1 o.2 o.3; port = 53 }, src_port, payload))
      → Outcome packet first

outcome : (packet : Bytes) (first : ℕ) → Opening packet first → Outcome packet first
outcome packet first h = elim (Bool-cases (ltb (length packet) (n + 8))) [
  | inl shorter ↦ short (ground arith) (extract-at packet first h ∙ refused shorter)
  | inr longer ↦
      let (o, eo) = octets_of packet h.long in
      let (src, dst, d) =
        datagram_at packet n (drop n packet) refl
          (omega (arith, size longer, length-drop n packet)) in
      read o src dst _ eo d (extract-at packet first h ∙ extract_udp-at o d eo)
]
  where
    n : ℕ
    n = first % 16 * 4

    size : ltb (length packet) (n + 8) ≡ false → n + 8 ≤ length packet
    size h = ground arith

    refused : ltb (length packet) (n + 8) ≡ true → extract_udp packet n ≡ err (error tt)
    refused h = unfold extract_udp in rw h refl

-- No packet makes the client read past its end, whatever the header says of its own length.
pub extract_dns_payload-ne-panic : (packet : Bytes) → extract_dns_payload packet ≢ err panic
extract_dns_payload-ne-panic packet h = elim (extract-none packet) [
  | inr refused ↦ ground arith
  | inl (first, opening) ↦ elim (outcome packet first opening) [
    | short s refused ↦ ground arith
    | read o src dst payload eo d e ↦ ground arith
  ]
]

pub extract_dns_payload-port :
    (packet : Bytes) (a : SocketAddr) (src_port : ℕ) (payload : Bytes)
    → extract_dns_payload packet ≡ ok (a, src_port, payload)
    → a.port ≡ 53
extract_dns_payload-port packet a src_port payload h = elim (extract-none packet) [
  | inr refused ↦ absurd (ground arith)
  | inl (first, opening) ↦ elim (outcome packet first opening) [
    | short s refused ↦ absurd (ground arith)
    | read o src dst bs eo d e ↦ ground arith
  ]
]

-- A packet is taken for a DNS query to `ip` from `src_port` with the given payload exactly when it is
-- an IPv4 packet that carries this UDP datagram to port 53, or when it is misread: it is marked as
-- IPv4 and UDP, but names a header of less than 20 bytes, and the datagram is read from where that
-- header would end, inside the real one. The documentation of the function has only the former.
pub extract_dns_payload_iff :
    (packet : Bytes) (ip : IpAddr) (src_port : ℕ) (payload : Bytes)
    → (extract_dns_payload packet ≡ ok (record { ip = ip; port = 53 }, src_port, payload))
      ↔ (IsDnsPacket packet ip src_port payload ⊎ IsMisread packet ip src_port payload)
extract_dns_payload_iff packet ip src_port payload =
    (λ h. by_length (there h), λ e. elim e [ inl p ↦ back p.points | inr p ↦ back p.points ])
  where
    by_length :
        Points packet ip src_port payload
        → IsDnsPacket packet ip src_port payload ⊎ IsMisread packet ip src_port payload
    by_length p = elim (Bool-cases (ltb (p.first % 16) 5)) [
      | inl less ↦ inr (record { points = p; cut = ground arith })
      | inr more ↦ inl (record { points = p; whole = ground arith })
    ]

    moved :
        (src dst : ℕ) (bs : Bytes) {n : ℕ}
        → Datagram packet n src dst bs
        → (src ≡ src_port) × (dst ≡ 53) × (bs ≡ payload)
        → Datagram packet n src_port 53 payload
    moved src dst bs d (e₀, e₁, e₂) = rw (e₀, e₁, e₂) at d

    there :
        extract_dns_payload packet ≡ ok (record { ip = ip; port = 53 }, src_port, payload)
        → Points packet ip src_port payload
    there h = elim (extract-none packet) [
      | inr refused ↦ absurd (ground arith)
      | inl (first, opening) ↦ elim (outcome packet first opening) [
        | short s refused ↦ absurd (ground arith)
        | read o src dst bs eo d e ↦ record {
          long = opening.long;
          first = first;
          first_at = opening.first_at;
          version = opening.version;
          protocol = opening.protocol;
          octets = o;
          octets_at = eo;
          same_ip = ground arith;
          datagram = moved src dst bs d (ground arith);
        }
      ]
    ]

    back :
        Points packet ip src_port payload
        → extract_dns_payload packet ≡ ok (record { ip = ip; port = 53 }, src_port, payload)
    back p =
        extract-at packet p.first (record {
          long = p.long;
          first_at = p.first_at;
          version = p.version;
          protocol = p.protocol;
        })
        ∙ extract_udp-at p.octets p.datagram p.octets_at
        ∙ rw p.same_ip refl
