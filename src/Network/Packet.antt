-- ===== src/Network/Packet.antt =====
-- network/src/packet.rs and network/src/mtu.rs: packets as read from the tunnel.
-- `NetworkPacket::new` is `new` and `MtuPolicy::validate` is `validate`. Sizes are `usize` and
-- nothing here adds them, so they do not wrap.
pub mod Validity
use real_layer.Base.Bytes.{Bytes}
use real_layer.Base.{
  ℕ, ◌*◌, ◌/◌, ◌%◌, ◌||◌, Bool, Result, ok, err, Fault, error, ◌>>=◌, ◌>>◌, reject, map_err, index,
  ltb, ◌==◌, nat_eq, length, if◌then◌else◌,
}

abbrev pub ipv4_version : ℕ
ipv4_version = 4

abbrev pub ipv6_version : ℕ
ipv6_version = 6

pub data PacketType : Type 0 where
  ipv4 ipv6 : PacketType

pub record NetworkPacket : Type 0 where
  pub bytes : Bytes
  pub packet_type : PacketType

pub data PacketError : Type 0 where
  empty malformed invalid_limit : PacketError
  oversized : (size maximum : ℕ) → PacketError
  exceeds_mtu : (size mtu : ℕ) → PacketError
  unsupported_type : (version : ℕ) → PacketError

-- The `match version` of `new`.
unfoldable pub packet_type_of : (first size : ℕ) → Result (Fault PacketError) PacketType
packet_type_of first size =
    let version = first / 16 in
    if version == ipv4_version
    then (let header_length = first % 16 * 4 in
        if ltb header_length 20 || ltb size header_length then err (error malformed) else ok ipv4)
    else if version == ipv6_version
    then (if ltb size 40 then err (error malformed) else ok ipv6)
    else err (error (unsupported_type version))

unfoldable pub new : Bytes → (maximum_size mtu : ℕ) → Result (Fault PacketError) NetworkPacket
unfolding packet_type_of
new bytes maximum_size mtu = do
  reject (maximum_size == 0 || mtu == 0) (error invalid_limit)
  let size = length bytes
  reject (size == 0) (error empty)
  reject (ltb maximum_size size) (error (oversized size maximum_size))
  reject (ltb mtu size) (error (exceeds_mtu size mtu))
  first ← index bytes 0
  packet_type ← packet_type_of first size
  ok (record { bytes = bytes; packet_type = packet_type })

pub record MtuPolicy : Type 0 where
  pub tunnel_mtu : ℕ
  pub maximum_packet_size : ℕ

pub data MtuError : Type 0 where
  invalid_configuration : MtuError
  packet : PacketError → MtuError

unfoldable pub new_policy : (tunnel_mtu maximum_packet_size : ℕ) → Result MtuError MtuPolicy
new_policy tunnel_mtu maximum_packet_size =
    if tunnel_mtu == 0 || maximum_packet_size == 0 || ltb tunnel_mtu maximum_packet_size
    then err invalid_configuration
    else ok (record { tunnel_mtu = tunnel_mtu; maximum_packet_size = maximum_packet_size })

-- A panic of the callee goes through `map_err`.
abbrev pub map_fault {ℓ κ} : {E : Type ℓ} {F : Type κ} → (E → F) → Fault E → Fault F
map_fault f (error e) = error (f e)
map_fault f Fault.panic = Fault.panic

unfoldable pub validate : MtuPolicy → Bytes → Result (Fault MtuError) NetworkPacket
validate policy bytes =
    map_err (map_fault packet) (new bytes policy.maximum_packet_size policy.tunnel_mtu)
