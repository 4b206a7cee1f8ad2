-- ===== src/Network/Dns/Parsing.antt =====
-- `DnsQuery::parse` against the form of a query.
use real_layer.Base.Bytes.{Bytes}
use real_layer.Base.{
  ℕ, ◌+◌, ◌*◌, ◌/◌, ◌%◌, ◌≤◌, ◌≡◌, ◌≢◌, ◌↔◌, ◌⊎◌, Fault, refl, sym, ap, ◌∙◌, List, [], ◌∷◌, ◌++◌,
  some, ok, err, panic, arith, length, drop, get_elem?, Bool-cases, Result-cases, inl, inr, ◌>>=◌,
  drop_next, length-drop, length-append, get_elem?-some, get_elem?-drop, drop-drop, drop-append,
  ltb, nat_eq,
}
use real_layer.Network.Dns.{DnsError, DnsQuery, DnsRecordType, parse, skip_labels, read_question}
use real_layer.Network.Dns.Grammar.{encode, code_of, IsQuestion, IsQuery}
use real_layer.Network.Dns.Questions.{
  QuestionBytes, read_question-some, read_question-ok, read_question-ne-panic,
}
use real_layer.Network.Dns.Labels.{Read, skip_labels-Read, skip_labels-encode, skip_labels-ne-panic}

-- The checks that come before the labels.
record Opening (packet : Bytes) (maximum : ℕ) : Type 0 where
  pub long : 12 ≤ length packet
  pub short : length packet ≤ maximum
  pub flags : (f : ℕ) × (get_elem? packet 2 ≡ some f) × (f / 128 % 2 ≡ 0)
  pub count : (get_elem? packet 4 ≡ some 0) × (get_elem? packet 5 ≡ some 1)

parse-Opening :
    (packet : Bytes) (maximum : ℕ) (q : DnsQuery)
    → parse packet maximum ≡ ok q
    → Opening packet maximum
unfolding parse
parse-Opening packet maximum q h = record {
  long = long;
  short = ground arith;
  flags = (get2.0, get2.1, ground (arith, get2.1, get4.1, get5.1));
  count = (ground (arith, get2.1, get4.1, get5.1), ground (arith, get2.1, get4.1, get5.1));
}
  where
    long : 12 ≤ length packet
    long = ground arith

    get2 : (f : ℕ) × (get_elem? packet 2 ≡ some f)
    get2 = get_elem?-some packet 2 (omega (arith, long))

    get4 : (c : ℕ) × (get_elem? packet 4 ≡ some c)
    get4 = get_elem?-some packet 4 (omega (arith, long))

    get5 : (c : ℕ) × (get_elem? packet 5 ≡ some c)
    get5 = get_elem?-some packet 5 (omega (arith, long))

parse-at :
    (packet : Bytes) (maximum : ℕ)
    → Opening packet maximum
    → parse packet maximum ≡ (skip_labels (length packet) packet 12 >>= read_question packet)
unfolding parse
parse-at packet maximum o = rw (o.flags.1, o.count.0, o.count.1) (ground (arith, o))

question_of :
    (packet : Bytes) (j : ℕ) (t : DnsRecordType) (b : QuestionBytes packet j)
    → Read packet 12 j
    → b.type_high * 256 + b.type_low ≡ code_of t
    → IsQuestion packet t
question_of packet j t b r e =
    let (z, at_j) = get_elem?-some packet j (omega (arith, b.size)) in
    record {
      labels = r.labels;
      type_high = b.type_high;
      type_low = b.type_low;
      rest = drop (j + 3) packet;
      valid = r.valid;
      layout = r.layout ∙ ap (λ bs. encode r.labels ++ bs) (tail z at_j (r.stop z at_j));
      class = omega (arith, b.size, length-drop (j + 3) packet);
      type = e;
    }
  where
    tail :
        (z : ℕ)
        → get_elem? packet j ≡ some z
        → z ≡ 0
        → drop j packet ≡ 0 ∷ b.type_high ∷ b.type_low ∷ drop (j + 3) packet
    tail z at_j e =
        drop_next packet j (j + 1) at_j refl
        ∙ rw (
          e,
          drop_next packet (j + 1) (j + 2) b.type_high_at (omega arith),
          drop_next packet (j + 2) (j + 3) b.type_low_at (omega arith),
        )

question-end :
    (packet : Bytes) (t : DnsRecordType) (u : IsQuestion packet t)
    → drop (12 + length (encode u.labels)) packet ≡ 0 ∷ u.type_high ∷ u.type_low ∷ u.rest
question-end packet t u =
    sym (drop-drop (length (encode u.labels)) 12 (12 + length (encode u.labels)) packet refl)
    ∙ rw u.layout (
        drop-append (length (encode u.labels)) (encode u.labels)
          (0 ∷ u.type_high ∷ u.type_low ∷ u.rest) refl)

question_bytes :
    (packet : Bytes) (t : DnsRecordType) (u : IsQuestion packet t) (ih il : ℕ)
    → get_elem? packet 0 ≡ some ih
    → get_elem? packet 1 ≡ some il
    → QuestionBytes packet (12 + length (encode u.labels))
question_bytes packet t u ih il e₀ e₁ = record {
  id_high = ih;
  id_low = il;
  type_high = u.type_high;
  type_low = u.type_low;
  id_high_at = e₀;
  id_low_at = e₁;
  type_high_at = get_elem?-drop packet _ j 1 (j + 1) d refl;
  type_low_at = get_elem?-drop packet _ j 2 (j + 2) d refl;
  size = omega (arith, ap length d, length-drop j packet, u.class);
}
  where
    j : ℕ
    j = 12 + length (encode u.labels)

    d : drop j packet ≡ 0 ∷ u.type_high ∷ u.type_low ∷ u.rest
    d = question-end packet t u

length-encode : (labels : List Bytes) → length labels ≤ length (encode labels)
unfolding encode
length-encode [] = omega arith
length-encode (l ∷ ls) = omega (arith, length-encode ls, length-append l (encode ls))

parse-IsQuery :
    (packet : Bytes) (maximum : ℕ) (q : DnsQuery)
    → parse packet maximum ≡ ok q
    → IsQuery packet maximum q
parse-IsQuery packet maximum q h = elim (Result-cases (skip_labels (length packet) packet 12)) [
  | inr (e, failed) ↦ absurd (ground (arith, parse-at packet maximum o))
  | inl (j, found) ↦ go j found (ground (arith, parse-at packet maximum o))
]
  where
    o : Opening packet maximum
    o = parse-Opening packet maximum q h

    go :
        (j : ℕ)
        → skip_labels (length packet) packet 12 ≡ ok j
        → read_question packet j ≡ ok q
        → IsQuery packet maximum q
    go j found done =
        let b = read_question-some packet j q done in
        let (t, n) = (read_question-ok packet j q b).0 done in
        record {
          long = o.long;
          short = o.short;
          flags = o.flags;
          count = o.count;
          id = (b.id_high, b.id_low, b.id_high_at, b.id_low_at, n);
          question =
              question_of packet j q.record_type b
                (skip_labels-Read (length packet) packet 12 j found) t;
        }

IsQuery-parse :
    (packet : Bytes) (maximum : ℕ) (q : DnsQuery)
    → IsQuery packet maximum q
    → parse packet maximum ≡ ok q
unfolding question_bytes
IsQuery-parse packet maximum q p =
    let u = p.question in
    let b = question_bytes packet q.record_type u p.id.0 p.id.1 p.id.2 p.id.3 in
    rw
      (
        parse-at packet maximum o,
        skip_labels-encode (length packet) packet 12 u.labels u.type_high (u.type_low ∷ u.rest)
            u.valid u.layout (omega (arith, b.size, length-encode u.labels)),
      )
      ((read_question-ok packet (12 + length (encode u.labels)) q b).1 (u.type, p.id.4))
  where
    o : Opening packet maximum
    o = record { long = p.long; short = p.short; flags = p.flags; count = p.count }

-- A packet parses as a query exactly when it has the form of one: twelve bytes of header with the
-- flag of a query and one question, labels of 1 to 63 bytes, a zero, the type A or AAAA and a class,
-- and at most `maximum` bytes in all; its transaction id is the header's.
pub parse_iff :
    (packet : Bytes) (maximum : ℕ) (q : DnsQuery)
    → (parse packet maximum ≡ ok q) ↔ IsQuery packet maximum q
parse_iff packet maximum q = (parse-IsQuery packet maximum q, IsQuery-parse packet maximum q)

-- No byte is read past the end of a packet, whatever its bytes, and the loop over the labels ends.
pub parse-ne-panic : (packet : Bytes) (maximum : ℕ) → parse packet maximum ≢ err panic
unfolding parse
parse-ne-panic packet maximum h = elim (Bool-cases (ltb (length packet) 12)) [
  | inl shorter ↦ ground arith
  | inr longer ↦ go (ground arith) (Result-cases (skip_labels (length packet) packet 12))
]
  where
    go :
        12 ≤ length packet
        → ((j : ℕ) × (skip_labels (length packet) packet 12 ≡ ok j))
          ⊎ ((e : Fault DnsError) × (skip_labels (length packet) packet 12 ≡ err e))
        → ⊥
    go long (inl (j, found)) = ground (
      arith,
      found,
      read_question-ne-panic packet j long,
      get_elem?-some packet 2 (omega (arith, long)),
      get_elem?-some packet 4 (omega (arith, long)),
      get_elem?-some packet 5 (omega (arith, long)),
    )
    go long (inr (e, failed)) = ground (
      arith,
      failed,
      skip_labels-ne-panic (length packet) packet 12 long (omega (arith, long)),
      get_elem?-some packet 2 (omega (arith, long)),
      get_elem?-some packet 4 (omega (arith, long)),
      get_elem?-some packet 5 (omega (arith, long)),
    )
