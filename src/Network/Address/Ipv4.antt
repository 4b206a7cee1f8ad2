-- ===== src/Network/Address/Ipv4.antt =====
-- The predicates of `std::net::Ipv4Addr`, on its four octets.
use real_layer.Base.{ℕ, Bool, ◌&&◌, ◌||◌, ◌==◌, nat_eq, leb}

unfoldable pub is_loopback : (a b c d : ℕ) → Bool
is_loopback a b c d = a == 127

unfoldable pub is_private : (a b c d : ℕ) → Bool
is_private a b c d = a == 10 || (a == 172 && leb 16 b && leb b 31) || (a == 192 && b == 168)

unfoldable pub is_link_local : (a b c d : ℕ) → Bool
is_link_local a b c d = a == 169 && b == 254

unfoldable pub is_multicast : (a b c d : ℕ) → Bool
is_multicast a b c d = leb 224 a && leb a 239

unfoldable pub is_broadcast : (a b c d : ℕ) → Bool
is_broadcast a b c d = a == 255 && b == 255 && c == 255 && d == 255

unfoldable pub is_unspecified : (a b c d : ℕ) → Bool
is_unspecified a b c d = a == 0 && b == 0 && c == 0 && d == 0
