-- ===== src/Client/DnsPackets/Checksum.antt =====
-- The checksum of the headers that the client builds.
use real_layer.Base.Bytes.{Bytes}
use real_layer.Base.{ℕ, ◌+◌, ◌-◌, ◌*◌, ◌/◌, ◌%◌, ◌^◌, ◌<◌, ◌≡◌, refl, [], ◌∷◌, arith}
use real_layer.Client.DnsPackets.{add_words, fold_carries, ipv4_checksum, ip_header, Octets}

-- The sum of the words without the width of the code's variable.
words : Bytes → ℕ
words [] = 0
words (b ∷ []) = b * 256
words (b ∷ c ∷ bs) = b * 256 + c + words bs

add_words-words :
    (sum : ℕ) (bs : Bytes) → sum + words bs < 2 ^ 32 → add_words sum bs ≡ sum + words bs
unfolding add_words words
add_words-words sum [] h = omega arith
add_words-words sum (b ∷ []) h = omega arith
add_words-words sum (b ∷ c ∷ bs) h =
    omega (arith, add_words-words ((sum + (b * 256 + c)) % 2 ^ 32) bs (omega arith))

-- One turn of the loop takes away a multiple of 65535, and leaves a sum that is not zero.
pub record Folded (sum folded : ℕ) : Type 0 where
  pub turns : ℕ
  pub same : sum ≡ folded + 65535 * turns
  pub pos : 0 < folded
  pub small : folded < 65536

-- Three turns are enough for 32 bits.
fold_carries-Folded : (sum : ℕ) → 0 < sum → sum < 2 ^ 32 → Folded sum (fold_carries 3 sum)
unfolding fold_carries
fold_carries-Folded sum pos small = record {
  turns = (sum - fold_carries 3 sum) / 65535;
  same = ground arith;
  pos = ground arith;
  small = ground arith;
}

-- Four bytes.
abbrev pub AreOctets : Octets → Type 0
AreOctets (a, b, c, d) = (a < 256) × (b < 256) × (c < 256) × (d < 256)

-- The sum over a header, with its checksum apart.
abbrev header_sum : ℕ → Octets → Octets → ℕ
header_sum n src_ip dst_ip = words (ip_header n src_ip dst_ip 0 0)

header_sum-bounds :
    (n : ℕ) (src_ip dst_ip : Octets)
    → AreOctets src_ip
    → AreOctets dst_ip
    → (0 < header_sum n src_ip dst_ip) × (header_sum n src_ip dst_ip < 2 ^ 31)
unfolding words ip_header
header_sum-bounds n (s, t, u, v) (w, x, y, z) ps pd = (omega arith, omega arith)

words-ip_header :
    (n : ℕ) (src_ip dst_ip : Octets) (c d : ℕ)
    → words (ip_header n src_ip dst_ip c d) ≡ header_sum n src_ip dst_ip + (c * 256 + d)
unfolding words ip_header
words-ip_header n (s, t, u, v) (w, x, y, z) c d = omega arith

-- Adding the complement of the folded sum makes the sum fold to 65535.
fold_carries-complement :
    (sum : ℕ)
    → 0 < sum
    → sum < 2 ^ 31
    → fold_carries 3 (sum + (65535 - fold_carries 3 sum % 65536)) ≡ 65535
fold_carries-complement sum pos small =
    omega (arith, f.same, f.pos, f.small, g.same, g.pos, g.small)
  where
    f : Folded sum (fold_carries 3 sum)
    f = fold_carries-Folded sum pos (omega arith)

    total : ℕ
    total = sum + (65535 - fold_carries 3 sum % 65536)

    g : Folded total (fold_carries 3 total)
    g = fold_carries-Folded total (omega arith) (omega arith)

add_words-ip_header :
    (n : ℕ) (src_ip dst_ip : Octets) (c : ℕ)
    → AreOctets src_ip
    → AreOctets dst_ip
    → c < 65536
    → add_words 0 (ip_header n src_ip dst_ip (c / 256 % 256) (c % 256))
      ≡ header_sum n src_ip dst_ip + c
add_words-ip_header n src_ip dst_ip c ps pd small =
    let h = words-ip_header n src_ip dst_ip (c / 256 % 256) (c % 256) in
    let b = header_sum-bounds n src_ip dst_ip ps pd in
    omega (
      arith,
      h,
      b.1,
      add_words-words 0 (ip_header n src_ip dst_ip (c / 256 % 256) (c % 256))
          (omega (arith, h, b.1)),
    )

ipv4_checksum-complement :
    (n : ℕ) (src_ip dst_ip : Octets) (c : ℕ)
    → AreOctets src_ip
    → AreOctets dst_ip
    → c ≡ 65535 - fold_carries 3 (header_sum n src_ip dst_ip) % 65536
    → ipv4_checksum (ip_header n src_ip dst_ip (c / 256 % 256) (c % 256)) ≡ 0
unfolding ipv4_checksum
ipv4_checksum-complement n src_ip dst_ip c ps pd h =
    let b = header_sum-bounds n src_ip dst_ip ps pd in
    rw
      (
        add_words-ip_header n src_ip dst_ip c ps pd (omega (arith, h)),
        h,
        fold_carries-complement (header_sum n src_ip dst_ip) b.0 b.1,
      )
      refl

ipv4_checksum-zero :
    (n : ℕ) (src_ip dst_ip : Octets)
    → AreOctets src_ip
    → AreOctets dst_ip
    → ipv4_checksum (ip_header n src_ip dst_ip 0 0)
      ≡ 65535 - fold_carries 3 (header_sum n src_ip dst_ip) % 65536
unfolding ipv4_checksum
ipv4_checksum-zero n src_ip dst_ip ps pd = rw (sum) refl
  where
    sum : add_words 0 (ip_header n src_ip dst_ip 0 0) ≡ header_sum n src_ip dst_ip
    sum = omega (arith, add_words-ip_header n src_ip dst_ip 0 ps pd (omega arith))

-- The header with its checksum in place has the checksum 0, which is how a receiver checks it.
pub ipv4_checksum-ip_header :
    (ip_total_len : ℕ) (src_ip dst_ip : Octets)
    → AreOctets src_ip
    → AreOctets dst_ip
    → (let c = ipv4_checksum (ip_header ip_total_len src_ip dst_ip 0 0) in
        ipv4_checksum (ip_header ip_total_len src_ip dst_ip (c / 256 % 256) (c % 256)) ≡ 0)
ipv4_checksum-ip_header n src_ip dst_ip ps pd =
    ipv4_checksum-complement n src_ip dst_ip _ ps pd (ipv4_checksum-zero n src_ip dst_ip ps pd)
