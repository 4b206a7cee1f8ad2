-- ===== src/Network/Address.antt =====
-- The part of `std::net` that the program uses: addresses as octets, with the predicates of the
-- standard library's documentation.
pub mod Ipv4
pub mod Ipv6
use real_layer.Base.Bytes.{Bytes}
use real_layer.Base.{
  ℕ, ◌≡◌, ◌↔◌, Bool, ◌&&◌, arith, Eq, ◌==◌, nat_eq, list_eq, list_beq_iff, true, false,
}

pub data IpAddr : Type 0 where
  v4 : (a b c d : ℕ) → IpAddr
  v6 : (octets : Bytes) → IpAddr

pub record SocketAddr : Type 0 where
  pub ip : IpAddr
  pub port : ℕ

abbrev pub ip_beq : IpAddr → IpAddr → Bool
ip_beq (v4 a b c d) (v4 a' b' c' d') = a == a' && b == b' && c == c' && d == d'
ip_beq (v4 a b c d) (v6 o) = false
ip_beq (v6 o) (v4 a b c d) = false
ip_beq (v6 o) (v6 o') = o == o'

pub ip_beq_iff : (x y : IpAddr) → (ip_beq x y ≡ true) ↔ (x ≡ y)
ip_beq_iff (v4 a b c d) (v4 a' b' c' d') = ground arith
ip_beq_iff (v4 a b c d) (v6 o) = ground arith
ip_beq_iff (v6 o) (v4 a b c d) = ground arith
ip_beq_iff (v6 o) (v6 o') = ground (arith, list_beq_iff o o')

instance abbrev pub ip_eq : Eq IpAddr
ip_eq = record { beq = ip_beq; beq_iff = ip_beq_iff }

abbrev pub socket_beq : SocketAddr → SocketAddr → Bool
socket_beq x y = x.ip == y.ip && x.port == y.port

pub socket_beq_iff : (x y : SocketAddr) → (socket_beq x y ≡ true) ↔ (x ≡ y)
socket_beq_iff x y = ground (arith, ip_beq_iff x.ip y.ip)

instance abbrev pub socket_eq : Eq SocketAddr
socket_eq = record { beq = socket_beq; beq_iff = socket_beq_iff }
