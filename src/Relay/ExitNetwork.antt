-- ===== src/Relay/ExitNetwork.antt =====
-- relay/src/exit_network.rs: which destinations an exit relay connects to, and its TCP connection.
-- Reading addresses from texts is the parameter `parse`; the socket is the parameter `Tcp`.
pub mod Policy
pub mod Exchange
use Prim.Native.Nat.{compare, Ordering}
use real_layer.Base.Bytes.{Bytes}
use real_layer.Base.{
  ℕ, ◌+◌, String, List, [], ◌∷◌, Option, none, some, Bool, true, false, ◌||◌, Result, ok, err,
  ◌>>=◌, ◌>>◌, reject, ensure, ok_or, map_err, ◌==◌, nat_eq, ltb, any, length, take, if◌then◌else◌,
}
use real_layer.Network.Address.{SocketAddr, IpAddr, v4, v6, socket_eq}
use real_layer.Network.Address.Ipv4
use real_layer.Network.Address.Ipv6
use real_layer.Network.Dns.{is_unspecified}
use real_layer.Relay.Candidates.{then_with, compare_bytes, sort_by}

pub data ExitNetworkError : Type 0 where
  malformed_destination invalid_port destination_not_allowed unsupported_address : ExitNetworkError
  payload_too_large response_too_large connection_timeout read_timeout : ExitNetworkError
  write_timeout closed : ExitNetworkError
  connection_failed read_failed write_failed : String → ExitNetworkError

pub record DestinationPolicy : Type 0 where
  pub allowed : List SocketAddr

-- The order of socket addresses: IPv4 before IPv6, then the octets, then the port.
unfoldable pub compare_ip : IpAddr → IpAddr → Ordering
unfolding compare_bytes
compare_ip (v4 a b c d) (v4 a' b' c' d') =
    compare_bytes (a ∷ b ∷ c ∷ d ∷ []) (a' ∷ b' ∷ c' ∷ d' ∷ [])
compare_ip (v4 a b c d) (v6 o) = Ordering.lt
compare_ip (v6 o) (v4 a b c d) = Ordering.gt
compare_ip (v6 o) (v6 o') = compare_bytes o o'

unfoldable pub compare_socket : SocketAddr → SocketAddr → Ordering
unfolding compare_ip then_with
compare_socket x y = then_with (compare_ip x.ip y.ip) (compare x.port y.port)

-- `Vec::dedup`: an element goes that equals the one kept before it.
unfoldable pub dedup_after : SocketAddr → List SocketAddr → List SocketAddr
dedup_after x [] = []
dedup_after x (y ∷ ys) =
    let same = dedup_after x ys in
    let other = dedup_after y ys in if y == x then same else y ∷ other

unfoldable pub dedup : List SocketAddr → List SocketAddr
unfolding dedup_after
dedup [] = []
dedup (x ∷ xs) = x ∷ dedup_after x xs

unfoldable pub new_policy : List SocketAddr → DestinationPolicy
unfolding dedup sort_by compare_socket
new_policy allowed = record { allowed = dedup (sort_by compare_socket allowed) }

unfoldable pub localhost : (port : ℕ) → DestinationPolicy
unfolding new_policy
localhost port = new_policy (record { ip = v4 127 0 0 1; port = port } ∷ [])

unfoldable pub is_multicast : IpAddr → Bool
unfolding Ipv4.is_multicast Ipv6.is_multicast
is_multicast (v4 a b c d) = Ipv4.is_multicast a b c d
is_multicast (v6 octets) = Ipv6.is_multicast octets

unfoldable pub is_broadcast : IpAddr → Bool
unfolding Ipv4.is_broadcast
is_broadcast (v4 a b c d) = Ipv4.is_broadcast a b c d
is_broadcast (v6 octets) = false

pub record TcpAdapterConfig : Type 0 where
  pub maximum_request_size : ℕ
  pub maximum_response_size : ℕ
  pub connection_timeout : ℕ
  pub read_timeout : ℕ
  pub write_timeout : ℕ

unfoldable pub validate_config : TcpAdapterConfig → Result ExitNetworkError (Unit {0})
validate_config c = do
  reject (c.maximum_request_size == 0 || c.maximum_response_size == 0) payload_too_large
  reject (c.connection_timeout == 0 || c.read_timeout == 0 || c.write_timeout == 0)
      connection_timeout

module _ (parse : String → Option SocketAddr) where
  -- The checks that reading a list and checking a destination share.
  unfoldable pub read_destination : String → Result ExitNetworkError SocketAddr
  unfolding is_unspecified
  read_destination destination = do
    address ← ok_or (parse destination) malformed_destination
    reject (address.port == 0) invalid_port
    reject (is_unspecified address.ip) unsupported_address
    ok address

  -- The loop of `from_strings`.
  unfoldable pub read_all : List String → Result ExitNetworkError (List SocketAddr)
  unfolding read_destination
  read_all [] = ok []
  read_all (d ∷ ds) = do address ← read_destination d; rest ← read_all ds; ok (address ∷ rest)

  unfoldable pub from_strings : List String → Result ExitNetworkError DestinationPolicy
  unfolding read_all new_policy
  from_strings destinations = do allowed ← read_all destinations; ok (new_policy allowed)

  unfoldable pub validate : DestinationPolicy → String → Result ExitNetworkError SocketAddr
  unfolding read_destination
  validate policy destination = do
    address ← read_destination destination
    ensure (any (λ a. a == address) policy.allowed) destination_not_allowed
    ok address

  unfoldable pub validate_udp : DestinationPolicy → String → Result ExitNetworkError SocketAddr
  unfolding validate is_multicast is_broadcast
  validate_udp policy destination = do
    address ← validate policy destination
    reject (is_multicast address.ip || is_broadcast address.ip) unsupported_address
    ok address

-- Errors of the socket.
pub data IoError : Type 0 where
  timed_out other : (text : String) → IoError

-- `io::Error::to_string`
abbrev pub text_of : IoError → String
text_of (timed_out text) = text
text_of (other text) = text

-- A connected `TcpStream`. `connect_timeout` stands for the call with the settings of the time limits
-- that follow it; `read` gives the bytes that fit a buffer of the given size.
pub record Tcp : Type 1 where
  pub TcpStream : Type 0
  pub connect_timeout : SocketAddr → TcpAdapterConfig → Result IoError TcpStream
  pub write_all : TcpStream → Bytes → TcpStream × Result IoError (Unit {0})
  pub read : TcpStream → (size : ℕ) → TcpStream × Result IoError Bytes
  pub shutdown : TcpStream → TcpStream × Result IoError (Unit {0})

pub record TcpExitNetworkAdapter (S : Type 0) : Type 0 where
  pub stream : S
  pub config : TcpAdapterConfig
  pub is_closed : Bool

abbrev pub name_error :
    (timeout : ExitNetworkError) → (String → ExitNetworkError) → IoError → ExitNetworkError
name_error timeout failure (timed_out text) = timeout
name_error timeout failure (other text) = failure text

module _ (tcp : Tcp) where
  open tcp use {TcpStream}

  abbrev pub Adapter : Type 0
  Adapter = TcpExitNetworkAdapter TcpStream

  unfoldable pub connect :
      (parse : String → Option SocketAddr)
      → (destination : String) → DestinationPolicy
      → TcpAdapterConfig
      → Result ExitNetworkError Adapter
  unfolding validate_config validate
  connect parse destination policy config = do
    validate_config config
    address ← validate parse policy destination
    stream ←
        map_err (name_error connection_timeout connection_failed)
          (tcp.connect_timeout address config)
    ok (record { stream = stream; config = config; is_closed = false })

  unfoldable pub send : Adapter → Bytes → Adapter × Result ExitNetworkError (Unit {0})
  send a payload =
      if a.is_closed
      then (a, err closed)
      else if ltb a.config.maximum_request_size (length payload)
      then (a, err payload_too_large)
      else (let (stream, r) = tcp.write_all a.stream payload in
          (record a { stream = stream }, map_err (name_error write_timeout write_failed) r))

  -- The check of the response's size.
  unfoldable pub bound_response : (maximum : ℕ) → Bytes → Result ExitNetworkError Bytes
  bound_response maximum response = do
    reject (ltb maximum (length response)) response_too_large
    ok response

  unfoldable pub receive : Adapter → Adapter × Result ExitNetworkError Bytes
  unfolding bound_response
  receive a =
      if a.is_closed
      then (a, err closed)
      else (let (stream, r) = tcp.read a.stream (a.config.maximum_response_size + 1) in
          (
            record a { stream = stream },
            map_err (name_error read_timeout read_failed) r
                >>= bound_response a.config.maximum_response_size,
          ))

  unfoldable pub close : Adapter → Adapter × Result ExitNetworkError (Unit {0})
  close a =
      if a.is_closed
      then (a, err closed)
      else (let (stream, r) = tcp.shutdown a.stream in
          elim r [
            | ok u ↦ (record a { stream = stream; is_closed = true }, ok tt)
            | err e ↦ (record a { stream = stream }, err (connection_failed (text_of e)))
          ])

  unfoldable pub exchange : Adapter → Bytes → Adapter × Result ExitNetworkError Bytes
  unfolding send receive
  exchange a payload =
      let (a', sent) = send a payload in elim sent [ ok u ↦ receive a' | err e ↦ (a', err e) ]
