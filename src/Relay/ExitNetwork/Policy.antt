-- ===== src/Relay/ExitNetwork/Policy.antt =====
-- Which destinations a policy that was read from the configuration allows.
use Prim.Native.Nat.{Ordering}
use real_layer.Base.{
  ◌<◌, ◌≡◌, ◌↔◌, refl, sym, ap, ◌∙◌, String, List, [], ◌∷◌, Option, some, Bool, true, false, ◌||◌,
  ok, arith, ◌==◌, nat_eq, any, Bool-cases, Option-cases, Result-cases, inl, inr, option_eq,
}
use real_layer.Network.Address.{SocketAddr, socket_eq}
use real_layer.Network.Dns.{is_unspecified}
use real_layer.Relay.Candidates.{insert_by, sort_by}
use real_layer.Relay.ExitNetwork.{
  DestinationPolicy, dedup, dedup_after, new_policy, compare_socket, read_destination, read_all,
  from_strings, validate, validate_udp, is_multicast, is_broadcast,
}

-- Sorting and removing repetitions keep what is in a list.
module _ {A : Type 0} where
  any-insert_by :
      (p : A → Bool) (cmp : A → A → Ordering) (x : A) (xs : List A)
      → any p (insert_by cmp x xs) ≡ (p x || any p xs)
  unfolding insert_by
  any-insert_by p cmp x [] = refl
  any-insert_by p cmp x (y ∷ ys) = ground (arith, any-insert_by p cmp x ys)

  any-sort_by :
      (p : A → Bool) (cmp : A → A → Ordering) (xs : List A) → any p (sort_by cmp xs) ≡ any p xs
  unfolding sort_by
  any-sort_by p cmp [] = refl
  any-sort_by p cmp (x ∷ xs) = any-insert_by p cmp x (sort_by cmp xs) ∙ rw (any-sort_by p cmp xs)

any-dedup_after :
    (p : SocketAddr → Bool) (x : SocketAddr) (xs : List SocketAddr)
    → (p x || any p (dedup_after x xs)) ≡ (p x || any p xs)
unfolding dedup_after
any-dedup_after p x [] = refl
any-dedup_after p x (y ∷ ys) = elim (Bool-cases (y == x)) [
  | inl same ↦
      rw same (ground (arith, any-dedup_after p x ys, ap p ((socket_eq.beq_iff y x).0 same)))
  | inr other ↦ rw (other, any-dedup_after p y ys) refl
]

any-dedup : (p : SocketAddr → Bool) (xs : List SocketAddr) → any p (dedup xs) ≡ any p xs
unfolding dedup
any-dedup p [] = refl
any-dedup p (x ∷ xs) = any-dedup_after p x xs

any-new_policy :
    (p : SocketAddr → Bool) (xs : List SocketAddr) → any p (new_policy xs).allowed ≡ any p xs
unfolding new_policy
any-new_policy p xs = any-dedup p (sort_by compare_socket xs) ∙ any-sort_by p compare_socket xs

module _ (parse : String → Option SocketAddr) where
  -- An address with a port, other than the unspecified one.
  pub record IsDestination (text : String) (a : SocketAddr) : Type 0 where
    pub read : parse text ≡ some a
    pub port : 0 < a.port
    pub ip : is_unspecified a.ip ≡ false

  read_destination_iff :
      (text : String) (a : SocketAddr) → (read_destination parse text ≡ ok a) ↔ IsDestination text a
  unfolding read_destination
  read_destination_iff text a = elim (Option-cases (parse text)) [
    | inl e ↦ (λ h. absurd (ground arith), λ d. absurd (ground (arith, d.read)))
    | inr (b, e) ↦ (
      λ h. record { read = ground arith; port = ground arith; ip = ground arith },
      λ d. ground (arith, d.read, d.port, d.ip),
    )
  ]

  -- The text of an address is among those that were read.
  abbrev pub is_listed : SocketAddr → List String → Bool
  is_listed a ds = any (λ d. parse d == some a) ds

  listed : (a b : SocketAddr) (d : String) → parse d ≡ some b → (parse d == some a) ≡ (b == a)
  listed a b d e = rw e

  -- Reading a list reads its first text and the rest.
  record First (d : String) (ds : List String) (xs : List SocketAddr) : Type 0 where
    pub head : SocketAddr
    pub tail : List SocketAddr
    pub read_head : IsDestination d head
    pub read_tail : read_all parse ds ≡ ok tail
    pub same : xs ≡ head ∷ tail

  read_all-First :
      (d : String) (ds : List String) (xs : List SocketAddr)
      → read_all parse (d ∷ ds) ≡ ok xs
      → First d ds xs
  unfolding read_all
  read_all-First d ds xs h = elim (Result-cases (read_destination parse d)) [
    | inr (x, e) ↦ absurd (ground arith)
    | inl (b, e) ↦ elim (Result-cases (read_all parse ds)) [
      | inr (x, e₁) ↦ absurd (ground arith)
      | inl (ys, e₁) ↦ record {
        head = b;
        tail = ys;
        read_head = (read_destination_iff d b).0 e;
        read_tail = e₁;
        same = ground arith;
      }
    ]
  ]

  read_all-listed :
      (ds : List String) (xs : List SocketAddr) (a : SocketAddr)
      → read_all parse ds ≡ ok xs
      → any (λ x. x == a) xs ≡ is_listed a ds
  unfolding read_all
  read_all-listed [] [] a h = refl
  read_all-listed [] (x ∷ xs) a h = absurd (ground arith)
  read_all-listed (d ∷ ds) xs a h =
      let f = read_all-First d ds xs h in
      rw (f.same, listed a f.head d f.read_head.read, read_all-listed ds f.tail a f.read_tail) refl

  read_all-IsDestination :
      (ds : List String) (xs : List SocketAddr) (a : SocketAddr) (text : String)
      → read_all parse ds ≡ ok xs
      → any (λ x. x == a) xs ≡ true
      → parse text ≡ some a
      → IsDestination text a
  unfolding read_all
  read_all-IsDestination [] [] a text h e r = absurd (ground arith)
  read_all-IsDestination [] (x ∷ xs) a text h e r = absurd (ground arith)
  read_all-IsDestination (d ∷ ds) xs a text h e r =
      let f = read_all-First d ds xs h in
      elim (Bool-cases (f.head == a)) [
        | inl same ↦
            let q = (socket_eq.beq_iff f.head a).0 same in
            record { read = r; port = rw q at f.read_head.port; ip = rw q at f.read_head.ip }
        | inr other ↦
            read_all-IsDestination ds f.tail a text f.read_tail
              (later f.head f.tail (rw f.same at e) other) r
      ]
    where
      later :
          (b : SocketAddr) (ys : List SocketAddr)
          → any (λ x. x == a) (b ∷ ys) ≡ true
          → (b == a) ≡ false
          → any (λ x. x == a) ys ≡ true
      later b ys e n = ground arith

  validate_iff :
      (policy : DestinationPolicy) (text : String) (a : SocketAddr)
      → (validate parse policy text ≡ ok a)
        ↔ (IsDestination text a × (any (λ x. x == a) policy.allowed ≡ true))
  unfolding validate
  validate_iff policy text a =
      (checked, λ (d, there). allowed ((read_destination_iff text a).1 d) there)
    where
      allowed :
          read_destination parse text ≡ ok a
          → any (λ x. x == a) policy.allowed ≡ true
          → validate parse policy text ≡ ok a
      allowed e there = rw (e, there) refl

      checked :
          validate parse policy text ≡ ok a
          → IsDestination text a × (any (λ x. x == a) policy.allowed ≡ true)
      checked v = elim (Result-cases (read_destination parse text)) [
        | inr (x, e) ↦ absurd (ground arith)
        | inl (b, e) ↦ elim (Bool-cases (any (λ x. x == b) policy.allowed)) [
          | inr no_such ↦ absurd (ground arith)
          | inl there ↦
              let q : b ≡ a = ground arith in
              ((read_destination_iff text a).0 (e ∙ ap ok q), rw q at there)
        ]
      ]

  -- A policy that was read from texts allows exactly the destinations that one of the texts names.
  pub validate-from_strings :
      (ds : List String) (policy : DestinationPolicy) (text : String) (a : SocketAddr)
      → from_strings parse ds ≡ ok policy
      → (validate parse policy text ≡ ok a) ↔ ((parse text ≡ some a) × (is_listed a ds ≡ true))
  unfolding from_strings
  validate-from_strings ds policy text a h = elim (Result-cases (read_all parse ds)) [
    | inr (x, e) ↦ absurd (ground arith)
    | inl (xs, e) ↦
        let named = allowed xs e h in
        (
          λ v. let (d, there) = (validate_iff policy text a).0 v in (d.read, sym named ∙ there),
          λ (r, there).
              let listed_one = read_all-listed ds xs a e ∙ there in
              (validate_iff policy text a).1
                (read_all-IsDestination ds xs a text e listed_one r, named ∙ there),
        )
  ]
    where
      same :
          (xs : List SocketAddr)
          → read_all parse ds ≡ ok xs
          → from_strings parse ds ≡ ok policy
          → policy ≡ new_policy xs
      same xs e h = ground arith

      allowed :
          (xs : List SocketAddr)
          → read_all parse ds ≡ ok xs
          → from_strings parse ds ≡ ok policy
          → any (λ x. x == a) policy.allowed ≡ is_listed a ds
      allowed xs e h =
          ap (λ (q : DestinationPolicy). any (λ x. x == a) q.allowed) (same xs e h)
          ∙ any-new_policy (λ x. x == a) xs
          ∙ read_all-listed ds xs a e

  -- What a policy allows for UDP it allows at all, with a port above 0, and it is neither unspecified
  -- nor multicast nor broadcast.
  validate_udp-unicast :
      (policy : DestinationPolicy) (text : String) (a : SocketAddr)
      → validate_udp parse policy text ≡ ok a
      → (validate parse policy text ≡ ok a)
        × IsDestination text a
        × (is_multicast a.ip ≡ false)
        × (is_broadcast a.ip ≡ false)
  unfolding validate_udp
  validate_udp-unicast policy text a h = elim (Result-cases (validate parse policy text)) [
    | inr (x, e) ↦ absurd (ground arith)
    | inl (b, e) ↦
        let q : b ≡ a = ground arith in
        let v : validate parse policy text ≡ ok a = e ∙ ap ok q in
        (v, ((validate_iff policy text a).0 v).0, ground arith, ground arith)
  ]
