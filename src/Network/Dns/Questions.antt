-- ===== src/Network/Dns/Questions.antt =====
-- The part of `DnsQuery::parse` after the labels.
use real_layer.Base.Bytes.{Bytes, from_be_bytes}
use real_layer.Base.{
  ℕ, ◌+◌, ◌*◌, ◌≤◌, ◌<◌, ◌≡◌, ◌≢◌, ◌↔◌, refl, [], ◌∷◌, some, ok, err, panic, arith, length,
  get_elem?, Bool-cases, inl, inr, ◌>>=◌, get_elem?-some, leb, nat_eq, false,
}
use real_layer.Network.Dns.{DnsQuery, DnsRecordType, a, aaaa, read_question, record_type_of}
use real_layer.Network.Dns.Grammar.{code_of}

record_type_of_iff : (n : ℕ) (t : DnsRecordType) → (record_type_of n ≡ ok t) ↔ (n ≡ code_of t)
unfolding record_type_of
record_type_of_iff n a = ground arith
record_type_of_iff n aaaa = ground arith

from_two : (h l : ℕ) → from_be_bytes (h ∷ l ∷ []) ≡ h * 256 + l
unfolding from_be_bytes
from_two h l = omega arith

-- The bytes that a query is read from: of the header, and of the question at `i`.
pub record QuestionBytes (packet : Bytes) (i : ℕ) : Type 0 where
  pub id_high : ℕ
  pub id_low : ℕ
  pub type_high : ℕ
  pub type_low : ℕ
  pub id_high_at : get_elem? packet 0 ≡ some id_high
  pub id_low_at : get_elem? packet 1 ≡ some id_low
  pub type_high_at : get_elem? packet (i + 1) ≡ some type_high
  pub type_low_at : get_elem? packet (i + 2) ≡ some type_low
  pub size : i + 4 < length packet

abbrev query_of : ℕ → DnsRecordType → DnsQuery
query_of n t = record { transaction_id = n; record_type = t }

read_question-at :
    (packet : Bytes) (i : ℕ) (b : QuestionBytes packet i)
    → read_question packet i ≡ (
        record_type_of (b.type_high * 256 + b.type_low) >>= λ t.
        ok (query_of (b.id_high * 256 + b.id_low) t))
unfolding read_question
read_question-at packet i b =
    rw
      (
        lt→leb (i + 4) (length packet) b.size,
        b.type_high_at,
        b.type_low_at,
        b.id_high_at,
        b.id_low_at,
        from_two b.type_high b.type_low,
        from_two b.id_high b.id_low,
      )
      refl
  where
    lt→leb : (m n : ℕ) → m < n → leb n m ≡ false
    lt→leb m n h = ground arith

pub read_question-some :
    (packet : Bytes) (i : ℕ) (q : DnsQuery) → read_question packet i ≡ ok q → QuestionBytes packet i
unfolding read_question
read_question-some packet i q h =
    let (ih, e₀) = get_elem?-some packet 0 (omega (arith, size)) in
    let (il, e₁) = get_elem?-some packet 1 (omega (arith, size)) in
    let (th, e₂) = get_elem?-some packet (i + 1) (omega (arith, size)) in
    let (tl, e₃) = get_elem?-some packet (i + 2) (omega (arith, size)) in
    record {
      id_high = ih;
      id_low = il;
      type_high = th;
      type_low = tl;
      id_high_at = e₀;
      id_low_at = e₁;
      type_high_at = e₂;
      type_low_at = e₃;
      size = size;
    }
  where
    size : i + 4 < length packet
    size = ground arith

pub read_question-ok :
    (packet : Bytes) (i : ℕ) (q : DnsQuery) (b : QuestionBytes packet i)
    → (read_question packet i ≡ ok q) ↔ (
        (b.type_high * 256 + b.type_low ≡ code_of q.record_type)
        × (b.id_high * 256 + b.id_low ≡ q.transaction_id))
read_question-ok packet i q b = ground (
  arith,
  read_question-at packet i b,
  record_type_of_iff (b.type_high * 256 + b.type_low) q.record_type,
)

pub read_question-ne-panic :
    (packet : Bytes) (i : ℕ) → 12 ≤ length packet → read_question packet i ≢ err panic
unfolding read_question record_type_of
read_question-ne-panic packet i long h = elim (Bool-cases (leb (length packet) (i + 4))) [
  | inl outside ↦ ground arith
  | inr inside ↦
      go inside (get_elem?-some packet (i + 1) (ground arith))
        (get_elem?-some packet (i + 2) (ground arith))
        (get_elem?-some packet 0 (omega (arith, long)))
        (get_elem?-some packet 1 (omega (arith, long)))
]
  where
    go :
        leb (length packet) (i + 4) ≡ false
        → (th : ℕ) × (get_elem? packet (i + 1) ≡ some th)
        → (tl : ℕ) × (get_elem? packet (i + 2) ≡ some tl)
        → (ih : ℕ) × (get_elem? packet 0 ≡ some ih)
        → (il : ℕ) × (get_elem? packet 1 ≡ some il)
        → ⊥
    go inside (th, e₁) (tl, e₂) (ih, e₃) (il, e₄) = ground arith
