-- ===== src/Network/Dns.antt =====
-- network/src/dns.rs: DNS queries and their resolution over UDP. `DnsQuery::parse` is `parse`, its
-- `while` loop `skip_labels`, with as much fuel as the packet has bytes; running out of fuel counts
-- as a panic. The socket of `resolve_packet` is the parameter `exchange`: the first datagram that
-- arrives, from whatever sender, or none where a socket call fails. `MockDnsResolver` is a double for tests.
pub mod Grammar
pub mod Labels
pub mod Questions
pub mod Parsing
pub mod Answers
use real_layer.Base.Bytes.{Bytes, from_be_bytes}
use real_layer.Base.{
  ℕ, zero, suc, ◌+◌, ◌/◌, ◌%◌, ◌||◌, not, [], ◌∷◌, Option, none, some, Result, ok, err, Fault,
  error, panic, ◌>>=◌, ◌>>◌, reject, ensure, ok_or, index, ltb, leb, ◌==◌, nat_eq, length, take,
  get_elem?, if◌then◌else◌, Bool,
}
use real_layer.Network.Address.{IpAddr, v4, v6, SocketAddr}
use real_layer.Network.Address.Ipv4
use real_layer.Network.Address.Ipv6

pub data DnsError : Type 0 where
  disabled malformed_request unknown_host request_too_large response_too_large : DnsError
  timed_out transaction_mismatch invalid_response server_failure : DnsError

pub record DnsLimits : Type 0 where
  pub maximum_request_size : ℕ
  pub maximum_response_size : ℕ
  pub timeout : ℕ

pub data DnsRecordType : Type 0 where
  a aaaa : DnsRecordType

pub record DnsQuery : Type 0 where
  pub transaction_id : ℕ
  pub record_type : DnsRecordType

-- The index of the byte that ends the labels from `i` on.
unfoldable pub skip_labels : (fuel : ℕ) → Bytes → ℕ → Result (Fault DnsError) ℕ
skip_labels zero packet i = err panic
skip_labels (suc fuel) packet i = elim (get_elem? packet i) [
  | none ↦ ok i
  | some len ↦
      let rest = skip_labels fuel packet (i + (len + 1)) in
      if len == 0
      then ok i
      else if len == 0 || ltb 63 len || leb (length packet) (i + len + 1)
      then err (error malformed_request)
      else rest
]

unfoldable pub record_type_of : ℕ → Result (Fault DnsError) DnsRecordType
record_type_of code =
    if code == 1 then ok a else if code == 28 then ok aaaa else err (error malformed_request)

-- From the end of the labels on.
unfoldable pub read_question : Bytes → (i : ℕ) → Result (Fault DnsError) DnsQuery
unfolding record_type_of
read_question packet i = do
  reject (leb (length packet) (i + 4)) (error malformed_request)
  high ← index packet (i + 1)
  low ← index packet (i + 2)
  record_type ← record_type_of (from_be_bytes (high ∷ low ∷ []))
  id_high ← index packet 0
  id_low ← index packet 1
  ok (record { transaction_id = from_be_bytes (id_high ∷ id_low ∷ []); record_type = record_type })

unfoldable pub parse : Bytes → (maximum_size : ℕ) → Result (Fault DnsError) DnsQuery
parse packet maximum_size = do
  reject (ltb (length packet) 12) (error malformed_request)
  reject (ltb maximum_size (length packet)) (error request_too_large)
  flags ← index packet 2
  count_high ← index packet 4
  count_low ← index packet 5
  reject (flags / 128 % 2 == 1 || not (count_high == 0) || not (count_low == 1))
      (error malformed_request)
  i ← skip_labels (length packet) packet 12
  read_question packet i

pub record UdpDnsResolver : Type 0 where
  pub server : SocketAddr
  pub limits : DnsLimits
  pub enabled : Bool

unfoldable pub is_unspecified : IpAddr → Bool
unfolding Ipv4.is_unspecified Ipv6.is_unspecified
is_unspecified (v4 o p q r) = Ipv4.is_unspecified o p q r
is_unspecified (v6 octets) = Ipv6.is_unspecified octets

unfoldable pub new_resolver : SocketAddr → DnsLimits → Bool → Result DnsError UdpDnsResolver
unfolding is_unspecified
new_resolver server limits enabled = do
  reject
      (limits.maximum_request_size == 0 || limits.maximum_response_size == 0 || limits.timeout == 0)
      timed_out
  reject (server.port == 0 || is_unspecified server.ip) malformed_request
  ok (record { server = server; limits = limits; enabled = enabled })

-- The last four bits of the fourth byte.
unfoldable pub check_code : ℕ → Bytes → Result (Fault DnsError) Bytes
check_code code response =
    if code == 0 || code == 3
    then ok response
    else if code == 2
    then err (error server_failure)
    else err (error invalid_response)

-- The checks on the response.
unfoldable pub check_response : (transaction_id : ℕ) → Bytes → Result (Fault DnsError) Bytes
unfolding check_code
check_response transaction_id response = do
  reject (ltb (length response) 12) (error transaction_mismatch)
  id_high ← index response 0
  id_low ← index response 1
  ensure (from_be_bytes (id_high ∷ id_low ∷ []) == transaction_id) (error transaction_mismatch)
  flags ← index response 2
  reject (flags / 128 % 2 == 0) (error invalid_response)
  code ← index response 3
  check_code (code % 16) response

-- `exchange` sends the request to the server, and gives the datagram that then arrives at the socket
-- with its sender, if one arrives in time. The socket is not connected, and `recv` looks at no sender.
-- It puts at most one byte more than allowed into its buffer.
unfoldable pub resolve_packet :
    (exchange : SocketAddr → Bytes → Option (SocketAddr × Bytes))
    → UdpDnsResolver
    → (request : Bytes) → Result (Fault DnsError) Bytes
unfolding check_response
resolve_packet exchange resolver request = do
  ensure resolver.enabled (error disabled)
  query ← parse request resolver.limits.maximum_request_size
  arrived ← ok_or (exchange resolver.server request) (error timed_out)
  let response = take (resolver.limits.maximum_response_size + 1) arrived.1
  reject (ltb resolver.limits.maximum_response_size (length response)) (error response_too_large)
  check_response query.transaction_id response
