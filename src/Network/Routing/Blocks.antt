-- ===== src/Network/Routing/Blocks.antt =====
-- The classes of addresses as tables of blocks in prefix notation: a second description of
-- `classify_address`, over the address as one number.
use real_layer.Base.{
  ℕ, ◌+◌, ◌-◌, ◌*◌, ◌/◌, ◌^◌, ◌<◌, ◌≡◌, ◌&&◌, ◌||◌, leb, true, false, refl, Bool, List, [], ◌∷◌,
  arith, ◌==◌, nat_eq, if◌then◌else◌,
}
use real_layer.Network.Address.{v4}
use real_layer.Network.Routing.{
  DestinationClass, loopback, private, link_local, multicast, broadcast, public, classify_address,
}

-- All addresses of `width` bits that share the first `prefix` bits of `base`.
pub record Block : Type 0 where
  pub base : ℕ
  pub prefix : ℕ
  pub class : DestinationClass

abbrev pub within : (width : ℕ) → ℕ → Block → Bool
within width address block =
    address / 2 ^ (width - block.prefix) == block.base / 2 ^ (width - block.prefix)

-- The class of the first block that holds the address; an address in no block is public.
abbrev pub class_in : (width : ℕ) → List Block → ℕ → DestinationClass
class_in width [] address = public
class_in width (block ∷ blocks) address =
    if within width address block then block.class else class_in width blocks address

abbrev pub dotted : (a b c d : ℕ) → ℕ
dotted a b c d = a * 2 ^ 24 + b * 2 ^ 16 + c * 2 ^ 8 + d

abbrev pub v4_blocks : List Block
v4_blocks =
    record { base = dotted 127 0 0 0; prefix = 8; class = loopback }
    ∷ record { base = dotted 10 0 0 0; prefix = 8; class = private }
    ∷ record { base = dotted 172 16 0 0; prefix = 12; class = private }
    ∷ record { base = dotted 192 168 0 0; prefix = 16; class = private }
    ∷ record { base = dotted 169 254 0 0; prefix = 16; class = link_local }
    ∷ record { base = dotted 224 0 0 0; prefix = 4; class = multicast }
    ∷ record { base = dotted 255 255 255 255; prefix = 32; class = broadcast }
    ∷ record { base = dotted 0 0 0 0; prefix = 32; class = DestinationClass.unsupported }
    ∷ []

-- Three tests in a row with one outcome are one test.
if_or_or {ℓ} :
    {A : Type ℓ} (x y z : Bool) (s t : A)
    → (if x || y || z then s else t) ≡ (if x then s else if y then s else if z then s else t)
if_or_or true y z s t = refl
if_or_or false true z s t = refl
if_or_or false false true s t = refl
if_or_or false false false s t = refl

module _ (a b c d : ℕ) (ha : a < 256) (hb : b < 256) (hc : c < 256) (hd : d < 256) where
  prefix_8 : dotted a b c d / 2 ^ 24 ≡ a
  prefix_8 = omega arith

  prefix_16 : dotted a b c d / 2 ^ 16 ≡ a * 256 + b
  prefix_16 = omega arith

  prefix_12 : dotted a b c d / 2 ^ 20 ≡ a * 16 + b / 16
  prefix_12 = omega arith

  prefix_4 : dotted a b c d / 2 ^ 28 ≡ a / 16
  prefix_4 = omega arith

  prefix_32 : dotted a b c d / 2 ^ 0 ≡ dotted a b c d
  prefix_32 = omega arith

  loopback_block : (a == 127) ≡ (dotted a b c d / 2 ^ 24 == dotted 127 0 0 0 / 2 ^ 24)
  loopback_block = ground (arith, prefix_8)

  private_8 : (a == 10) ≡ (dotted a b c d / 2 ^ 24 == dotted 10 0 0 0 / 2 ^ 24)
  private_8 = ground (arith, prefix_8)

  private_12 :
      (a == 172 && leb 16 b && leb b 31) ≡ (dotted a b c d / 2 ^ 20 == dotted 172 16 0 0 / 2 ^ 20)
  private_12 = ground (arith, prefix_12)

  private_16 : (a == 192 && b == 168) ≡ (dotted a b c d / 2 ^ 16 == dotted 192 168 0 0 / 2 ^ 16)
  private_16 = ground (arith, prefix_16)

  link_local_block :
      (a == 169 && b == 254) ≡ (dotted a b c d / 2 ^ 16 == dotted 169 254 0 0 / 2 ^ 16)
  link_local_block = ground (arith, prefix_16)

  multicast_block :
      (leb 224 a && leb a 239) ≡ (dotted a b c d / 2 ^ 28 == dotted 224 0 0 0 / 2 ^ 28)
  multicast_block = ground (arith, prefix_4)

  broadcast_block :
      (a == 255 && b == 255 && c == 255 && d == 255)
      ≡ (dotted a b c d / 2 ^ 0 == dotted 255 255 255 255 / 2 ^ 0)
  broadcast_block = ground (arith, prefix_32)

  unspecified_block :
      (a == 0 && b == 0 && c == 0 && d == 0) ≡ (dotted a b c d / 2 ^ 0 == dotted 0 0 0 0 / 2 ^ 0)
  unspecified_block = ground (arith, prefix_32)

  -- An IPv4 destination, given by four octets, has the class of its block, of the eight that are
  -- not public.
  pub classify_address-v4 : classify_address (v4 a b c d) ≡ class_in 32 v4_blocks (dotted a b c d)
  unfolding classify_address
  classify_address-v4 = rw (
    loopback_block, if_or_or, private_8, private_12, private_16, link_local_block, multicast_block,
    broadcast_block, unspecified_block,
  )
