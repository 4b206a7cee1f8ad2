-- ===== src/Network/Dns/Grammar.antt =====
-- The form of a DNS query with one question, apart from how network/src/dns.rs reads it.
use real_layer.Base.Bytes.{Bytes}
use real_layer.Base.{
  ℕ, ◌+◌, ◌*◌, ◌/◌, ◌%◌, ◌≤◌, ◌<◌, ◌≡◌, List, [], ◌∷◌, ◌++◌, some, length, drop, get_elem?,
}
use real_layer.Network.Dns.{DnsQuery, DnsRecordType, a, aaaa}

-- A label has 1 to 63 bytes.
abbrev pub AreLabels : List Bytes → Type 0
AreLabels [] = Unit {0}
AreLabels (l ∷ ls) = (0 < length l) × (length l ≤ 63) × AreLabels ls

-- Each label after its length.
unfoldable pub encode : List Bytes → Bytes
encode [] = []
encode (l ∷ ls) = length l ∷ (l ++ encode ls)

abbrev pub code_of : DnsRecordType → ℕ
code_of a = 1
code_of aaaa = 28

-- After the twelve bytes of the header: labels, a zero, the type in two bytes, and at least the two
-- bytes of the class.
pub record IsQuestion (packet : Bytes) (t : DnsRecordType) : Type 0 where
  pub labels : List Bytes
  pub type_high : ℕ
  pub type_low : ℕ
  pub rest : Bytes
  pub valid : AreLabels labels
  pub layout : drop 12 packet ≡ encode labels ++ (0 ∷ type_high ∷ type_low ∷ rest)
  pub class : 2 ≤ length rest
  pub type : type_high * 256 + type_low ≡ code_of t

-- A packet of at most `maximum` bytes with the flag of a query and one question.
pub record IsQuery (packet : Bytes) (maximum : ℕ) (q : DnsQuery) : Type 0 where
  pub long : 12 ≤ length packet
  pub short : length packet ≤ maximum
  pub flags : (f : ℕ) × (get_elem? packet 2 ≡ some f) × (f / 128 % 2 ≡ 0)
  pub count : (get_elem? packet 4 ≡ some 0) × (get_elem? packet 5 ≡ some 1)
  pub id :
      (high : ℕ) × (low : ℕ) × (get_elem? packet 0 ≡ some high)
      × (get_elem? packet 1 ≡ some low)
      × (high * 256 + low ≡ q.transaction_id)
  pub question : IsQuestion packet q.record_type
