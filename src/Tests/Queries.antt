-- ===== src/Tests/Queries.antt =====
-- DNS queries on the wire, in the client's packets and at the resolver.
use real_layer.Base.Bytes.{Bytes, from_be_bytes}
use real_layer.Base.Text.{as_bytes}
use real_layer.Base.{
  ◌⊎◌, ◌≡◌, ◌≢◌, ◌↔◌, refl, [], ◌∷◌, some, Option, ok, err, panic, true, arith, take,
}
use real_layer.Network.Address.{SocketAddr, v4}
use real_layer.Network.Dns.{
  DnsQuery, a, parse, skip_labels, read_question, record_type_of, UdpDnsResolver, resolve_packet,
  check_response, check_code,
}
use real_layer.Network.Dns.Grammar.{IsQuery}
use real_layer.Network.Dns.Parsing.{parse_iff, parse-ne-panic}
use real_layer.Network.Dns.Answers.{IsAnswer, resolve_packet-IsAnswer}
use real_layer.Client.DnsPackets.{
  dns_query, split, push_labels, extract_dns_payload, build_dns_response_packet, Octets,
  ipv4_checksum,
}
use real_layer.Client.DnsPackets.Datagrams.{IsDnsPacket, IsMisread}
use real_layer.Client.DnsPackets.Extraction.{extract_dns_payload_iff}
use real_layer.Client.DnsPackets.Building.{extract-build, ipv4_checksum-build}
use real_layer.Client.DnsPackets.Queries.{parse-dns_query}

-- A query for the address of a.b.
abbrev query : Bytes
query = 18 ∷ 52 ∷ 1 ∷ 0 ∷ 0 ∷ 1 ∷ 0 ∷ 0 ∷ 0 ∷ 0 ∷ 0 ∷ 0 ∷ 1 ∷ 97 ∷ 1 ∷ 98 ∷ 0 ∷ 0 ∷ 1 ∷ 0 ∷ 1 ∷ []

abbrev parsed : DnsQuery
parsed = record { transaction_id = 4660; record_type = a }

parse_iff_example : (parse query 512 ≡ ok parsed) ↔ IsQuery query 512 parsed
parse_iff_example = parse_iff query 512 parsed

parse-ne-panic_example : parse query 512 ≢ err panic
parse-ne-panic_example = parse-ne-panic query 512

abbrev response : Bytes
response = 18 ∷ 52 ∷ 129 ∷ 3 ∷ 0 ∷ 1 ∷ 0 ∷ 0 ∷ 0 ∷ 0 ∷ 0 ∷ 0 ∷ []

-- The answer comes from a sender that is not the server.
abbrev sender : SocketAddr
sender = record { ip = v4 7 7 7 7; port = 9 }

abbrev exchange : SocketAddr → Bytes → Option (SocketAddr × Bytes)
exchange server request = some (sender, response)

abbrev resolver : UdpDnsResolver
resolver = record {
  server = record { ip = v4 9 9 9 9; port = 53 };
  limits = record { maximum_request_size = 512; maximum_response_size = 512; timeout = 3 };
  enabled = true;
}

answered : resolve_packet exchange resolver query ≡ ok response
unfolding resolve_packet parse skip_labels read_question record_type_of check_response check_code
    from_be_bytes
answered = refl

resolve_packet-IsAnswer_example :
    (q : DnsQuery) × (parse query 512 ≡ ok q)
    × ((from : SocketAddr) × (exchange resolver.server query ≡ some (from, response)))
    × IsAnswer q 512 response
resolve_packet-IsAnswer_example = resolve_packet-IsAnswer exchange resolver query response answered

abbrev server : Octets
server = (9, 9, 9, 9)

abbrev tunnel : Octets
tunnel = (10, 8, 0, 1)

abbrev datagram : Bytes
datagram = build_dns_response_packet query tunnel server 40000 53

extract_dns_payload_iff_example :
    (extract_dns_payload datagram ≡ ok (record { ip = v4 9 9 9 9; port = 53 }, 40000, query))
    ↔ (IsDnsPacket datagram (v4 9 9 9 9) 40000 query ⊎ IsMisread datagram (v4 9 9 9 9) 40000 query)
extract_dns_payload_iff_example = extract_dns_payload_iff datagram (v4 9 9 9 9) 40000 query

extract-build_example :
    extract_dns_payload datagram ≡ ok (record { ip = v4 9 9 9 9; port = 53 }, 40000, query)
extract-build_example = extract-build query tunnel server 40000 (omega arith)

ipv4_checksum-build_example : ipv4_checksum (take 20 datagram) ≡ 0
ipv4_checksum-build_example =
    ipv4_checksum-build query tunnel server 40000 53
      (omega arith, omega arith, omega arith, omega arith)
      (omega arith, omega arith, omega arith, omega arith)

labelled : split (as_bytes "a.b") ≡ (97 ∷ []) ∷ (98 ∷ []) ∷ []
unfolding split as_bytes
labelled = refl

parse-dns_query_example : parse (dns_query "a.b") 512 ≡ ok parsed
unfolding split as_bytes dns_query push_labels
parse-dns_query_example =
    parse-dns_query "a.b" 512 ((omega arith, omega arith, (omega arith, omega arith, tt)))
      (omega arith)
