-- ===== src/Client/DnsPackets/Queries.antt =====
-- `dns_query` against the parser of the relay's side.
use real_layer.Base.Bytes.{Bytes}
use real_layer.Base.Text.{as_bytes}
use real_layer.Base.{ℕ, ◌%◌, ◌≤◌, ◌≡◌, refl, String, List, [], ◌∷◌, ok, arith, length}
use real_layer.Network.Dns.{a, parse}
use real_layer.Network.Dns.Grammar.{AreLabels, encode}
use real_layer.Network.Dns.Parsing.{parse_iff}
use real_layer.Client.DnsPackets.{dns_query, push_labels, split}

push_labels-encode : (labels : List Bytes) → AreLabels labels → push_labels labels ≡ encode labels
unfolding push_labels encode
push_labels-encode [] h = refl
push_labels-encode (l ∷ ls) h = rw (push_labels-encode ls h.2, small) refl
  where
    small : length l % 256 ≡ length l
    small = omega (arith, h.1)

-- The query for a name whose labels have 1 to 63 bytes is one that `DnsQuery::parse` accepts, if it
-- is not too long: an A query with the transaction id 0x1234.
pub parse-dns_query :
    (name : String) (maximum : ℕ)
    → AreLabels (split (as_bytes name))
    → length (dns_query name) ≤ maximum
    → parse (dns_query name) maximum ≡ ok (record { transaction_id = 4660; record_type = a })
unfolding dns_query
parse-dns_query name maximum valid short = (parse_iff (dns_query name) maximum _).1 (record {
  long = omega arith;
  short = short;
  flags = (1, refl, refl);
  count = (refl, refl);
  id = (18, 52, refl, refl, refl);
  question = record {
    labels = split (as_bytes name);
    type_high = 0;
    type_low = 1;
    rest = 0 ∷ 1 ∷ [];
    valid = valid;
    layout = rw (push_labels-encode (split (as_bytes name)) valid) refl;
    class = omega arith;
    type = refl;
  };
})
