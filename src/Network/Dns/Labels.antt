-- ===== src/Network/Dns/Labels.antt =====
-- The loop of `DnsQuery::parse` over the labels.
use real_layer.Base.Bytes.{Bytes}
use mathlib.Core.List.{append_assoc}
use real_layer.Base.{
  ℕ, zero, suc, ◌+◌, ◌≤◌, ◌<◌, ◌≡◌, refl, sym, ap, ◌∙◌, List, [], ◌∷◌, ◌++◌, none, some, ok, arith,
  length, drop, take, get_elem?, ◌≢◌, err, panic, Option-cases, Bool-cases, ◌==◌, nat_eq, true,
  false, inl, inr, drop_cons, length-drop, length-append, length-take, take-append-drop, drop-drop,
  get_elem?-drop, drop-append,
}
use real_layer.Network.Dns.{skip_labels}
use real_layer.Network.Dns.Grammar.{AreLabels, encode}

-- What the loop has read when it stops at `j`.
pub record Read (packet : Bytes) (i j : ℕ) : Type 0 where
  pub labels : List Bytes
  pub valid : AreLabels labels
  pub layout : drop i packet ≡ encode labels ++ drop j packet
  pub forward : i ≤ j
  pub stop : (n : ℕ) → get_elem? packet j ≡ some n → n ≡ 0

Read-step :
    (packet : Bytes) (i j len : ℕ)
    → get_elem? packet i ≡ some len
    → 0 < len
    → len ≤ 63
    → i + len + 1 < length packet
    → Read packet (i + (len + 1)) j
    → Read packet i j
unfolding encode
Read-step packet i j len here pos short inside r = record {
  labels = label ∷ r.labels;
  valid = (omega (arith, size), omega (arith, size), r.valid);
  layout =
      drop_cons packet i here
      ∙ rw (
        size,
        append_assoc label (encode r.labels) (drop j packet),
        sym r.layout,
        ← drop-drop len (suc i) (i + (len + 1)) packet (omega arith),
        take-append-drop len (drop (suc i) packet),
      );
  forward = omega (arith, r.forward);
  stop = r.stop;
}
  where
    label : Bytes
    label = take len (drop (suc i) packet)

    size : length label ≡ len
    size = omega (arith, length-take len (drop (suc i) packet), length-drop (suc i) packet)

-- The loop stops where it stands.
Read-refl :
    (packet : Bytes) (i : ℕ) → ((n : ℕ) → get_elem? packet i ≡ some n → n ≡ 0) → Read packet i i
unfolding encode
Read-refl packet i stop = record {
  labels = [];
  valid = tt;
  layout = refl;
  forward = omega arith;
  stop = stop;
}

pub skip_labels-Read :
    (fuel : ℕ) (packet : Bytes) (i j : ℕ) → skip_labels fuel packet i ≡ ok j → Read packet i j
unfolding skip_labels
skip_labels-Read zero packet i j h = absurd (ground arith)
skip_labels-Read (suc fuel) packet i j h = elim (Option-cases (get_elem? packet i)) [
  | inl past ↦ rw (sym (the_end past)) (Read-refl packet i (λ n e. absurd (ground arith)))
  | inr (len, here) ↦ elim (Bool-cases (len == 0)) [
    | inl z ↦ rw (sym (at_zero len here z)) (Read-refl packet i (λ n e. ground arith))
    | inr pos ↦ go len here pos (skip_labels-Read fuel packet (i + (len + 1)) j)
  ]
]
  where
    the_end : get_elem? packet i ≡ none → i ≡ j
    the_end past = ground arith

    at_zero : (len : ℕ) → get_elem? packet i ≡ some len → (len == 0) ≡ true → i ≡ j
    at_zero len here z = ground arith

    go :
        (len : ℕ)
        → get_elem? packet i ≡ some len
        → (len == 0) ≡ false
        → (skip_labels fuel packet (i + (len + 1)) ≡ ok j → Read packet (i + (len + 1)) j)
        → Read packet i j
    go len here pos rec =
        Read-step packet i j len here (ground arith) (ground arith) (ground arith)
          (rec (ground arith))

-- The loop reads valid labels to their end, with more fuel than there are labels.
pub skip_labels-encode :
    (fuel : ℕ) (packet : Bytes) (i : ℕ) (labels : List Bytes) (b : ℕ) (rest : Bytes)
    → AreLabels labels
    → drop i packet ≡ encode labels ++ (0 ∷ b ∷ rest)
    → length labels < fuel
    → skip_labels fuel packet i ≡ ok (i + length (encode labels))
unfolding skip_labels encode
skip_labels-encode zero packet i labels b rest valid layout enough = absurd (omega arith)
skip_labels-encode (suc fuel) packet i [] b rest valid layout enough =
    ground (arith, get_elem?-drop packet (0 ∷ b ∷ rest) i 0 i layout (omega arith))
skip_labels-encode (suc fuel) packet i (l ∷ ls) b rest valid layout enough = ground (
  arith,
  get_elem?-drop packet (encode (l ∷ ls) ++ (0 ∷ b ∷ rest)) i 0 i layout (omega arith),
  skip_labels-encode fuel packet (i + (length l + 1)) ls b rest valid.2 next (omega arith),
  length-drop (i + (length l + 1)) packet,
  ap length next,
  length-append (encode ls) (0 ∷ b ∷ rest),
  length-append l (encode ls),
  valid.0,
  valid.1,
)
  where
    next : drop (i + (length l + 1)) packet ≡ encode ls ++ (0 ∷ b ∷ rest)
    next =
        sym (drop-drop (suc (length l)) i (i + (length l + 1)) packet (omega arith))
        ∙ rw (layout, append_assoc l (encode ls) (0 ∷ b ∷ rest))
            (drop-append (length l) l (encode ls ++ (0 ∷ b ∷ rest)) refl)

-- With as much fuel as there are bytes left, it does not run out.
pub skip_labels-ne-panic :
    (fuel : ℕ) (packet : Bytes) (i : ℕ)
    → i ≤ length packet
    → length packet < i + fuel
    → skip_labels fuel packet i ≢ err panic
unfolding skip_labels
skip_labels-ne-panic zero packet i inside enough h = omega arith
skip_labels-ne-panic (suc fuel) packet i inside enough h =
    elim (Option-cases (get_elem? packet i)) [
      | inl past ↦ ground arith
      | inr (len, here) ↦ go len here (skip_labels-ne-panic fuel packet (i + (len + 1)))
    ]
  where
    go :
        (len : ℕ)
        → get_elem? packet i ≡ some len
        → (i + (len + 1) ≤ length packet
            → length packet < i + (len + 1) + fuel
            → skip_labels fuel packet (i + (len + 1)) ≢ err panic)
        → ⊥
    go len here rec = rec (ground arith) (ground arith) (ground arith)
