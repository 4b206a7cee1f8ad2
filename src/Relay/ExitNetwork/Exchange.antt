-- ===== src/Relay/ExitNetwork/Exchange.antt =====
-- The TCP connection of an exit relay.
use real_layer.Base.Bytes.{Bytes}
use real_layer.Base.{
  ℕ, ◌+◌, ◌≤◌, ◌<◌, ◌≡◌, String, Option, false, ok, arith, length, Bool-cases, Result-cases, inl,
  inr,
}
use real_layer.Network.Address.{SocketAddr}
use real_layer.Relay.ExitNetwork.{
  Tcp, TcpAdapterConfig, Adapter, DestinationPolicy, connect, send, receive, bound_response,
  exchange, validate, validate_config,
}

module _ (tcp : Tcp) where
  open tcp use {TcpStream}

  bound_response-short :
      (maximum : ℕ) (r s : Bytes) → bound_response tcp maximum r ≡ ok s → length s ≤ maximum
  unfolding bound_response
  bound_response-short maximum r s h = ground arith

  receive-short :
      (a : Adapter tcp) (r : Bytes)
      → (receive tcp a).1 ≡ ok r
      → (a.is_closed ≡ false) × (length r ≤ a.config.maximum_response_size)
  unfolding receive
  receive-short a r h =
      elim (Result-cases (tcp.read a.stream (a.config.maximum_response_size + 1)).1) [
        | inr (e, failed) ↦ absurd (ground arith)
        | inl (bs, got) ↦ elim (Bool-cases (a.is_closed)) [
          | inl shut ↦ absurd (ground arith)
          | inr opened ↦
              (opened, bound_response-short a.config.maximum_response_size bs r (ground arith))
        ]
      ]

  send-config : (a : Adapter tcp) (payload : Bytes) → (send tcp a payload).0.config ≡ a.config
  unfolding send
  send-config a payload = ground arith

  -- An exchange that succeeds was on an open connection, and neither the request nor the response is
  -- longer than the configuration allows.
  exchange-IsBounded :
      (a : Adapter tcp) (payload r : Bytes)
      → (exchange tcp a payload).1 ≡ ok r
      → (a.is_closed ≡ false)
        × (length payload ≤ a.config.maximum_request_size)
        × (length r ≤ a.config.maximum_response_size)
  unfolding exchange send
  exchange-IsBounded a payload r h = elim (Result-cases (send tcp a payload).1) [
    | inr (e, failed) ↦ absurd (ground arith)
    | inl (u, sent) ↦
        let a' = (send tcp a payload).0 in
        let (opened, short) = receive-short a' r (ground arith) in
        (ground arith, ground arith, rw (send-config a payload) at short)
  ]

  -- A connection is made only to an address that the policy allows for the destination.
  connect-validate :
      (parse : String → Option SocketAddr) (destination : String) (policy : DestinationPolicy)
      (config : TcpAdapterConfig) (a : Adapter tcp)
      → connect tcp parse destination policy config ≡ ok a
      → ((address : SocketAddr) × (validate parse policy destination ≡ ok address)
          × (tcp.connect_timeout address config ≡ ok a.stream))
        × (a.config ≡ config)
        × (0 < config.maximum_request_size)
        × (0 < config.maximum_response_size)
  unfolding connect validate_config
  connect-validate parse destination policy config a h =
      elim (Result-cases (validate parse policy destination)) [
        | inr (e, refused) ↦ absurd (ground arith)
        | inl (address, allowed) ↦ elim (Result-cases (tcp.connect_timeout address config)) [
          | inr (e, failed) ↦ absurd (ground arith)
          | inl (stream, made) ↦
              ((address, allowed, ground arith), ground arith, ground arith, ground arith)
        ]
      ]
