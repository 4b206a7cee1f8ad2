-- ===== src/Client/DnsPackets.antt =====
-- client/src/engine.rs: the DNS packets that the client takes from its tunnel and puts back. An array
-- that the code fills by index is written out; `None` of `extract_dns_payload` is `error tt`, and an
-- index out of bounds a panic. The loop of `ipv4_checksum` that adds the carries has fuel for three
-- turns.
pub mod Checksum
pub mod Datagrams
pub mod Extraction
pub mod Building
pub mod Queries
use real_layer.Base.Bytes.{Bytes, from_be_bytes}
use real_layer.Base.Text.{as_bytes}
use real_layer.Base.{
  ℕ, zero, suc, ◌+◌, ◌-◌, ◌*◌, ◌/◌, ◌%◌, ◌^◌, String, List, [], ◌∷◌, ◌++◌, Result, ok, Fault, error,
  panic, ◌>>=◌, ◌>>◌, ensure, reject, index, ltb, leb, ◌==◌, nat_eq, length, drop, if◌then◌else◌,
}
use real_layer.Network.Address.{SocketAddr, v4}

-- `str::split('.')`, on the bytes.
abbrev pub dot : ℕ
dot = 46

abbrev pub add_to_first : ℕ → List Bytes → List Bytes
add_to_first b [] = (b ∷ []) ∷ []
add_to_first b (l ∷ ls) = (b ∷ l) ∷ ls

unfoldable pub split : Bytes → List Bytes
split [] = [] ∷ []
split (b ∷ bs) = let rest = split bs in if b == dot then [] ∷ rest else add_to_first b rest

unfoldable pub push_labels : List Bytes → Bytes
push_labels [] = []
push_labels (l ∷ ls) = (length l % 256) ∷ (l ++ push_labels ls)

abbrev pub query_header : Bytes
query_header = 18 ∷ 52 ∷ 1 ∷ 0 ∷ 0 ∷ 1 ∷ 0 ∷ 0 ∷ 0 ∷ 0 ∷ 0 ∷ 0 ∷ []

unfoldable pub dns_query : (name : String) → Bytes
unfolding split push_labels
dns_query name = query_header ++ (push_labels (split (as_bytes name)) ++ (0 ∷ 0 ∷ 1 ∷ 0 ∷ 1 ∷ []))

-- `packet[start..].to_vec()`
abbrev pub slice_from {ℓ} : {E : Type ℓ} → Bytes → ℕ → Result (Fault E) Bytes
slice_from bs start = do reject (ltb (length bs) start) panic; ok (drop start bs)

-- A big-endian number of two bytes.
unfoldable pub read_u16 {ℓ} : {E : Type ℓ} → Bytes → ℕ → Result (Fault E) ℕ
read_u16 bs i = do high ← index bs i; low ← index bs (i + 1); ok (from_be_bytes (high ∷ low ∷ []))

-- From the length of the IP header on.
unfoldable pub extract_udp : Bytes → ℕ → Result (Fault (Unit {0})) (SocketAddr × ℕ × Bytes)
unfolding read_u16
extract_udp packet ip_header_len = do
  reject (ltb (length packet) (ip_header_len + 8)) (error tt)
  src_port ← read_u16 packet ip_header_len
  dst_port ← read_u16 packet (ip_header_len + 2)
  ensure (dst_port == 53) (error tt)
  o ← index packet 16
  p ← index packet 17
  q ← index packet 18
  r ← index packet 19
  dns_payload ← slice_from packet (ip_header_len + 8)
  ok (record { ip = v4 o p q r; port = 53 }, src_port, dns_payload)

unfoldable pub extract_dns_payload : Bytes → Result (Fault (Unit {0})) (SocketAddr × ℕ × Bytes)
unfolding extract_udp
extract_dns_payload packet = do
  reject (ltb (length packet) 28) (error tt)
  first ← index packet 0
  ensure (first / 16 == 4) (error tt)
  protocol ← index packet 9
  ensure (protocol == 17) (error tt)
  extract_udp packet (first % 16 * 4)

-- The loop over the chunks, on a `u32`.
unfoldable pub add_words : (sum : ℕ) → Bytes → ℕ
add_words sum [] = sum
add_words sum (b ∷ []) = (sum + b * 256) % 2 ^ 32
add_words sum (b ∷ c ∷ bs) = add_words ((sum + (b * 256 + c)) % 2 ^ 32) bs

-- The `while` loop.
unfoldable pub fold_carries : (fuel : ℕ) → (sum : ℕ) → ℕ
fold_carries zero sum = sum
fold_carries (suc fuel) sum =
    let rest = fold_carries fuel (sum % 65536 + sum / 65536) in
    if sum / 65536 == 0 then sum else rest

-- `!(sum as u16)`
unfoldable pub ipv4_checksum : Bytes → ℕ
unfolding add_words fold_carries
ipv4_checksum header = 65535 - fold_carries 3 (add_words 0 header) % 65536

abbrev pub Octets : Type 0
Octets = ℕ × ℕ × ℕ × ℕ

-- The twenty bytes of the IP header, with the two bytes of the checksum.
unfoldable pub ip_header : (ip_total_len : ℕ) → (src_ip dst_ip : Octets) → (c d : ℕ) → Bytes
ip_header ip_total_len (s, t, u, v) (w, x, y, z) c d =
    69
    ∷ 0
    ∷ (ip_total_len / 256 % 256)
    ∷ (ip_total_len % 256)
    ∷ 0
    ∷ 0
    ∷ 64
    ∷ 0
    ∷ 64
    ∷ 17
    ∷ c
    ∷ d
    ∷ s
    ∷ t
    ∷ u
    ∷ v
    ∷ w
    ∷ x
    ∷ y
    ∷ z
    ∷ []

unfoldable pub udp_header : (udp_payload_len src_port dst_port : ℕ) → Bytes
udp_header udp_payload_len src_port dst_port =
    (src_port / 256 % 256)
    ∷ (src_port % 256)
    ∷ (dst_port / 256 % 256)
    ∷ (dst_port % 256)
    ∷ (udp_payload_len / 256 % 256)
    ∷ (udp_payload_len % 256)
    ∷ 0
    ∷ 0
    ∷ []

unfoldable pub build_dns_response_packet :
    (dns_response : Bytes) → (src_ip dst_ip : Octets) → (src_port dst_port : ℕ) → Bytes
unfolding ip_header udp_header ipv4_checksum
build_dns_response_packet dns_response src_ip dst_ip src_port dst_port =
    let udp_payload_len = 8 + length dns_response in
    let ip_total_len = 20 + udp_payload_len in
    let checksum = ipv4_checksum (ip_header ip_total_len src_ip dst_ip 0 0) in
    ip_header ip_total_len src_ip dst_ip (checksum / 256 % 256) (checksum % 256)
    ++ (udp_header udp_payload_len src_port dst_port ++ dns_response)
