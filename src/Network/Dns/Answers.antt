-- ===== src/Network/Dns/Answers.antt =====
-- `UdpDnsResolver::resolve_packet`: which responses it returns.
use real_layer.Base.Bytes.{Bytes, from_be_bytes}
use real_layer.Base.{
  ℕ, ◌+◌, ◌*◌, ◌/◌, ◌%◌, ◌≤◌, ◌≡◌, ◌≢◌, ◌⊎◌, Option, none, some, Fault, ok, err, panic, arith,
  length, take, get_elem?, Option-cases, Bool-cases, Result-cases, inl, inr, get_elem?-some, sym,
  ap, ◌∙◌, length-take, take-all, ltb, nat_eq,
}
use real_layer.Network.Address.{SocketAddr}
use real_layer.Network.Dns.{
  DnsError, DnsQuery, UdpDnsResolver, parse, check_code, check_response, resolve_packet,
}
use real_layer.Network.Dns.Parsing.{parse-ne-panic}

-- What a client may take as an answer to the query `q`.
pub record IsAnswer (q : DnsQuery) (maximum : ℕ) (response : Bytes) : Type 0 where
  pub long : 12 ≤ length response
  pub short : length response ≤ maximum
  pub id :
      (high : ℕ) × (low : ℕ) × (get_elem? response 0 ≡ some high)
      × (get_elem? response 1 ≡ some low)
      × (high * 256 + low ≡ q.transaction_id)
  pub flags : (f : ℕ) × (get_elem? response 2 ≡ some f) × (f / 128 % 2 ≡ 1)
  pub code : (c : ℕ) × (get_elem? response 3 ≡ some c) × ((c % 16 ≡ 0) ⊎ (c % 16 ≡ 3))

check_response-IsAnswer :
    (q : DnsQuery) (maximum : ℕ) (response answer : Bytes)
    → length response ≤ maximum
    → check_response q.transaction_id response ≡ ok answer
    → (answer ≡ response) × IsAnswer q maximum response
unfolding check_response check_code from_be_bytes
check_response-IsAnswer q maximum response answer short h = (
  ground (arith, get0.1, get1.1, get2.1, get3.1),
  record {
    long = long;
    short = short;
    id = (get0.0, get1.0, get0.1, get1.1, ground (arith, get0.1, get1.1));
    flags = (get2.0, get2.1, ground (arith, get0.1, get1.1, get2.1));
    code = (get3.0, get3.1, ground (arith, get0.1, get1.1, get2.1, get3.1));
  },
)
  where
    long : 12 ≤ length response
    long = ground arith

    get0 : (b : ℕ) × (get_elem? response 0 ≡ some b)
    get0 = get_elem?-some response 0 (omega (arith, long))

    get1 : (b : ℕ) × (get_elem? response 1 ≡ some b)
    get1 = get_elem?-some response 1 (omega (arith, long))

    get2 : (b : ℕ) × (get_elem? response 2 ≡ some b)
    get2 = get_elem?-some response 2 (omega (arith, long))

    get3 : (b : ℕ) × (get_elem? response 3 ≡ some b)
    get3 = get_elem?-some response 3 (omega (arith, long))

check_response-ne-panic : (n : ℕ) (response : Bytes) → check_response n response ≢ err panic
unfolding check_response check_code
check_response-ne-panic n response h = elim (Bool-cases (ltb (length response) 12)) [
  | inl shorter ↦ ground arith
  | inr longer ↦ go (ground arith)
]
  where
    go : 12 ≤ length response → ⊥
    go long = ground (
      arith,
      get_elem?-some response 0 (omega (arith, long)),
      get_elem?-some response 1 (omega (arith, long)),
      get_elem?-some response 2 (omega (arith, long)),
      get_elem?-some response 3 (omega (arith, long)),
    )

-- An accepted exchange: the request parses, the datagram is short enough and passes the checks.
accept-IsAnswer :
    (resolver : UdpDnsResolver) (q : DnsQuery) (datagram answer : Bytes)
    → length (take (resolver.limits.maximum_response_size + 1) datagram)
      ≤ resolver.limits.maximum_response_size
    → check_response q.transaction_id (take (resolver.limits.maximum_response_size + 1) datagram)
      ≡ ok answer
    → (datagram ≡ answer) × IsAnswer q resolver.limits.maximum_response_size answer
accept-IsAnswer resolver q datagram answer short h =
    let (e, a) = check_response-IsAnswer q n datagram answer fits (rw whole at h) in (sym e, rw e a)
  where
    n : ℕ
    n = resolver.limits.maximum_response_size

    fits : length datagram ≤ n
    fits = omega (arith, length-take (n + 1) datagram, short)

    whole : take (n + 1) datagram ≡ datagram
    whole = take-all (n + 1) datagram (omega (arith, fits))

-- A response that the resolver returns is, in full, the datagram that arrived after a request that
-- parses as a query was sent to the server, from whatever sender: no check names the sender. It is no
-- longer than allowed, and it fits that query: its transaction id, the flag of a response, and a code
-- that says no error or no such name.
pub resolve_packet-IsAnswer :
    (exchange : SocketAddr → Bytes → Option (SocketAddr × Bytes)) (resolver : UdpDnsResolver)
    (request answer : Bytes)
    → resolve_packet exchange resolver request ≡ ok answer
    → (q : DnsQuery) × (parse request resolver.limits.maximum_request_size ≡ ok q)
      × ((sender : SocketAddr) × (exchange resolver.server request ≡ some (sender, answer)))
      × IsAnswer q resolver.limits.maximum_response_size answer
unfolding resolve_packet
resolve_packet-IsAnswer exchange resolver request answer h =
    go (Result-cases (parse request n)) (Option-cases (exchange resolver.server request))
  where
    n : ℕ
    n = resolver.limits.maximum_request_size

    m : ℕ
    m = resolver.limits.maximum_response_size

    go :
        ((q : DnsQuery) × (parse request n ≡ ok q))
          ⊎ ((e : Fault DnsError) × (parse request n ≡ err e))
        → (exchange resolver.server request ≡ none)
          ⊎ ((d : SocketAddr × Bytes) × (exchange resolver.server request ≡ some d))
        → (q : DnsQuery) × (parse request n ≡ ok q)
          × ((sender : SocketAddr) × (exchange resolver.server request ≡ some (sender, answer)))
          × IsAnswer q m answer
    go (inr (e, failed)) o = absurd (ground arith)
    go (inl (q, parsed)) (inl failed) = absurd (ground arith)
    go (inl (q, parsed)) (inr ((sender, d), arrived)) =
        let (same, a) = accept-IsAnswer resolver q d answer (ground arith) (ground arith) in
        (q, parsed, (sender, arrived ∙ ap (λ bs. some (sender, bs)) same), a)

-- Whatever the request and the datagram that arrives hold, no byte outside them is read.
resolve_packet-ne-panic :
    (exchange : SocketAddr → Bytes → Option (SocketAddr × Bytes)) (resolver : UdpDnsResolver)
    (request : Bytes)
    → resolve_packet exchange resolver request ≢ err panic
unfolding resolve_packet
resolve_packet-ne-panic exchange resolver request h =
    elim (Result-cases (parse request resolver.limits.maximum_request_size)) [
      | inr (e, failed) ↦
          ground (arith, parse-ne-panic request resolver.limits.maximum_request_size)
      | inl (q, parsed) ↦ elim (Option-cases (exchange resolver.server request)) [
        | inl failed ↦ ground arith
        | inr (d, arrived) ↦ ground (
          arith,
          check_response-ne-panic q.transaction_id
              (take (resolver.limits.maximum_response_size + 1) d.1),
        )
      ]
    ]
