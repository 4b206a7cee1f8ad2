-- ===== src/Network/Address/Ipv6.antt =====
-- The predicates of `std::net::Ipv6Addr`, on its sixteen octets.
use real_layer.Base.Bytes.{Bytes}
use real_layer.Base.{ℕ, ◌+◌, ◌*◌, Bool, false, [], ◌∷◌, ◌++◌, ◌==◌, nat_eq, list_eq, replicate}

unfoldable pub is_loopback : Bytes → Bool
is_loopback octets = octets == replicate 15 0 ++ 1 ∷ []

unfoldable pub is_unspecified : Bytes → Bool
is_unspecified octets = octets == replicate 16 0

unfoldable pub is_multicast : Bytes → Bool
is_multicast [] = false
is_multicast (o ∷ os) = o == 255

-- `segments()[0]`
unfoldable pub first_segment : Bytes → ℕ
first_segment (a ∷ b ∷ os) = a * 256 + b
first_segment os = 0
