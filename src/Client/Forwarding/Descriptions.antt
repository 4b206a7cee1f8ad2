-- ===== src/Client/Forwarding/Descriptions.antt =====
-- The metadata that the client puts beside a packet.
use real_layer.Base.Bytes.{Bytes}
use real_layer.Base.{
  ℕ, ◌≡◌, ◌≢◌, ◌⊎◌, ap, ◌∙◌, refl, ok, err, error, panic, arith, length, ltb, Result-cases,
  Bool-cases, inl, inr, get_elem?-some,
}
use real_layer.Network.Address.{SocketAddr, IpAddr, v4}
use real_layer.Network.Session.Types.{SessionId}
use real_layer.Relay.Forwarding.{ForwardedPacket, ForwardedProtocol, dns, ip}
use real_layer.Client.DnsPackets.{extract_dns_payload}
use real_layer.Client.DnsPackets.Extraction.{extract_dns_payload-ne-panic}
use real_layer.Client.Forwarding.{forwarded_packet, describe_ip, describe_by, describe}

-- All packets of a session are numbered 1 in one flow.
pub record OfSession (session_id : SessionId) (p : ForwardedPacket) : Type 0 where
  pub session : p.session_id ≡ session_id
  pub ids : (p.route_id ≡ session_id) × (p.flow_id ≡ session_id)
  pub numbered : p.sequence ≡ 1

forwarded_packet-OfSession :
    (id : SessionId) (protocol : ForwardedProtocol) (port : ℕ) (a : SocketAddr) (bs : Bytes)
    → OfSession id (forwarded_packet id protocol port a bs)
unfolding forwarded_packet
forwarded_packet-OfSession id protocol port a bs = record {
  session = refl;
  ids = (refl, refl);
  numbered = refl;
}

-- The metadata of a packet that is no DNS query.
record IpPacket (id : SessionId) (packet : Bytes) : Type 0 where
  pub ip_address : IpAddr
  pub result :
      describe_ip id packet
      ≡ ok (forwarded_packet id ip 0 (record { ip = ip_address; port = 0 }) packet)

describe_ip-cases :
    (id : SessionId) (packet : Bytes)
    → (describe_ip id packet ≡ err (error tt)) ⊎ IpPacket id packet
unfolding describe_ip
describe_ip-cases id packet = elim (Bool-cases (ltb (length packet) 20)) [
  | inl shorter ↦ inl (rw shorter refl)
  | inr longer ↦
      let (a, ea) = get_elem?-some packet 16 (ground arith) in
      let (b, eb) = get_elem?-some packet 17 (ground arith) in
      let (c, ec) = get_elem?-some packet 18 (ground arith) in
      let (d, ed) = get_elem?-some packet 19 (ground arith) in
      inr (record { ip_address = v4 a b c d; result = rw (longer, ea, eb, ec, ed) refl })
]

pub describe-dns :
    (id : SessionId) (packet : Bytes) (a : SocketAddr) (port : ℕ) (q : Bytes)
    → extract_dns_payload packet ≡ ok (a, port, q)
    → describe id packet ≡ ok (forwarded_packet id dns port a q)
unfolding describe describe_by
describe-dns id packet a port q h = ap (describe_by id packet) h

-- What `describe` can give.
data Described (id : SessionId) (packet : Bytes) : Type 0 where
  nothing : describe id packet ≡ err (error tt) → Described id packet
  query :
      (a : SocketAddr) (port : ℕ) (q : Bytes)
      → extract_dns_payload packet ≡ ok (a, port, q)
      → describe id packet ≡ ok (forwarded_packet id dns port a q)
      → Described id packet
  other :
      (a : IpAddr)
      → describe id packet ≡ ok (forwarded_packet id ip 0 (record { ip = a; port = 0 }) packet)
      → Described id packet

describe-cases : (id : SessionId) (packet : Bytes) → Described id packet
unfolding describe describe_by
describe-cases id packet = elim (Result-cases (extract_dns_payload packet)) [
  | inl ((a, port, q), e) ↦ query a port q e (describe-dns id packet a port q e)
  | inr (panic, e) ↦ absurd (extract_dns_payload-ne-panic packet e)
  | inr (error x, e) ↦ elim (describe_ip-cases id packet) [
    | inl d ↦ nothing (ap (describe_by id packet) e ∙ d)
    | inr i ↦ other i.ip_address (ap (describe_by id packet) e ∙ i.result)
  ]
]

pub describe-OfSession :
    (id : SessionId) (packet : Bytes) (p : ForwardedPacket)
    → describe id packet ≡ ok p
    → OfSession id p
describe-OfSession id packet p h = elim (describe-cases id packet) [
  | nothing e ↦ absurd (ground arith)
  | query a port q x e ↦ rw (same _ e) (forwarded_packet-OfSession id dns port a q)
  | other a e ↦ rw (same _ e) (forwarded_packet-OfSession id ip 0 _ packet)
]
  where
    same : (q : ForwardedPacket) → describe id packet ≡ ok q → p ≡ q
    same q e = ground arith

-- A packet that is no DNS query is addressed to the port 0.
pub describe-port :
    (id : SessionId) (packet : Bytes) (p : ForwardedPacket)
    → extract_dns_payload packet ≡ err (error tt)
    → describe id packet ≡ ok p
    → p.destination.port ≡ 0
unfolding forwarded_packet
describe-port id packet p none h = elim (describe-cases id packet) [
  | nothing e ↦ absurd (ground arith)
  | query a port q x e ↦ absurd (ground arith)
  | other a e ↦ ground arith
]

pub describe-ne-panic : (id : SessionId) (packet : Bytes) → describe id packet ≢ err panic
describe-ne-panic id packet h = elim (describe-cases id packet) [
  | nothing e ↦ ground arith
  | query a port q x e ↦ ground arith
  | other a e ↦ ground arith
]
