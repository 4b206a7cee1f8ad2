-- ===== src/Client/DnsPackets/Building.antt =====
-- `build_dns_response_packet`: the packet that it builds is read back, and its checksum is right.
use real_layer.Base.Bytes.{Bytes}
use real_layer.Base.{ℕ, ◌+◌, ◌/◌, ◌%◌, ◌<◌, ◌≡◌, refl, [], ◌∷◌, inl, ok, arith, length, take}
use real_layer.Network.Address.{v4}
use real_layer.Client.DnsPackets.{
  extract_dns_payload, build_dns_response_packet, ip_header, udp_header, Octets, ipv4_checksum,
}
use real_layer.Client.DnsPackets.Checksum.{AreOctets, ipv4_checksum-ip_header}
use real_layer.Client.DnsPackets.Extraction.{extract_dns_payload_iff}

-- A packet that the client builds, sent to port 53, is taken for a DNS query, with the destination,
-- source port and payload that it was built from.
pub extract-build :
    (payload : Bytes) (src_ip dst_ip : Octets) (src_port : ℕ)
    → src_port < 65536
    → extract_dns_payload (build_dns_response_packet payload src_ip dst_ip src_port 53)
      ≡ ok (record { ip = v4 dst_ip.0 dst_ip.1 dst_ip.2 dst_ip.3; port = 53 }, src_port, payload)
unfolding build_dns_response_packet ip_header udp_header
extract-build payload src_ip dst_ip src_port small =
    (extract_dns_payload_iff packet _ src_port payload).1 (
      inl (record {
        points = record {
          long = omega arith;
          first = 69;
          first_at = refl;
          version = refl;
          protocol = refl;
          octets = dst_ip;
          octets_at = (refl, refl, refl, refl);
          same_ip = refl;
          datagram = record {
            src_high = src_port / 256 % 256;
            src_low = src_port % 256;
            dst_high = 0;
            dst_low = 53;
            others = ((8 + length payload) / 256 % 256) ∷ ((8 + length payload) % 256) ∷ 0 ∷ 0 ∷ [];
            layout = refl;
            four = refl;
            src = omega arith;
            dst = refl;
          };
        };
        whole = omega arith;
      }))
  where
    packet : Bytes
    packet = build_dns_response_packet payload src_ip dst_ip src_port 53

-- The checksum of the IP header of a packet that the client builds is right: over the whole header
-- it is 0.
pub ipv4_checksum-build :
    (payload : Bytes) (src_ip dst_ip : Octets) (src_port dst_port : ℕ)
    → AreOctets src_ip
    → AreOctets dst_ip
    → ipv4_checksum (take 20 (build_dns_response_packet payload src_ip dst_ip src_port dst_port))
      ≡ 0
unfolding build_dns_response_packet ip_header
ipv4_checksum-build payload src_ip dst_ip src_port dst_port ps pd =
    ipv4_checksum-ip_header (20 + (8 + length payload)) src_ip dst_ip ps pd
