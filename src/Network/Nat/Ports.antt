-- ===== src/Network/Nat/Ports.antt =====
-- `NatTable::allocate_port` of network/src/nat.rs.
use real_layer.Base.{
  ℕ, zero, suc, ◌+◌, ◌-◌, ◌%◌, ◌≤◌, ◌<◌, ◌≡◌, refl, true, none, Result, ok, err, arith, Eq, ◌==◌,
  nat_eq, Bool-cases, Result-cases, ap, false, inl, inr, if◌then◌else◌,
}
use real_layer.Base.Map.{get, contains_key, contains_key-false}
use real_layer.Network.Address.{SocketAddr, socket_eq}
use real_layer.Network.Nat.{
  NatTable, NatError, search_port, allocate_port, first_port, last_port, port_count, port_exhausted,
}

abbrev pub InRange : ℕ → Type 0
InRange port = (first_port ≤ port) × (port ≤ last_port)

-- The port after `i` rounds from `port`.
port_after : (i port : ℕ) → ℕ
port_after i port = first_port + (port - first_port + i) % 25536

next : ℕ → ℕ
next port = if port == last_port then first_port else port + 1

next-InRange : (port : ℕ) → InRange port → InRange (next port)
unfolding next
next-InRange port h = ground arith

port_after-zero : (port : ℕ) → InRange port → port_after 0 port ≡ port
unfolding port_after
port_after-zero port h = omega arith

port_after-suc : (i port : ℕ) → InRange port → port_after (suc i) port ≡ port_after i (next port)
unfolding port_after next
port_after-suc i port h = elim (Bool-cases (port == last_port)) [
  | inl e ↦ ground arith
  | inr e ↦ ground arith
]

-- Each port of the range is met in one of 25536 rounds.
meets :
    (port goal : ℕ)
    → InRange port
    → InRange goal
    → port_after ((goal + 25536 - port) % 25536) port ≡ goal
unfolding port_after
meets port goal p g = omega arith

module _ {P : Type 0} ⦃e : Eq P⦄ where
  abbrev pub address_at : NatTable P → ℕ → SocketAddr
  address_at t port = record { ip = t.translated_address; port = port }

  -- The allocation changes the next port at most.
  abbrev pub Allocated : NatTable P → NatTable P → Result NatError SocketAddr → Type 0
  Allocated t t' (ok a) =
      (get a t.reverse ≡ none)
      × (a.ip ≡ t.translated_address)
      × InRange a.port
      × InRange t'.next_port
      × (t' ≡ record t { next_port = t'.next_port })
  Allocated t t' (err x) =
      (x ≡ port_exhausted) × InRange t'.next_port × (t' ≡ record t { next_port = t'.next_port })

  Allocated-next :
      (t t' : NatTable P) (n : ℕ) (r : Result NatError SocketAddr)
      → Allocated (record t { next_port = n }) t' r
      → Allocated t t' r
  Allocated-next t t' n (ok a) h = h
  Allocated-next t t' n (err x) h = h

  search_port-Allocated :
      (rounds : ℕ) (t : NatTable P)
      → InRange t.next_port
      → Allocated t (search_port rounds t).0 (search_port rounds t).1
  unfolding search_port next
  search_port-Allocated zero t h = ground arith
  search_port-Allocated (suc rounds) t h =
      let t₁ : NatTable P = record t { next_port = next t.next_port } in
      let more = next-InRange t.next_port h in
      elim (Bool-cases (contains_key (address_at t t.next_port) t.reverse)) [
        | inl taken ↦ rw taken (
            Allocated-next t (search_port rounds t₁).0 (next t.next_port) (search_port rounds t₁).1
              (search_port-Allocated rounds t₁ more))
        | inr free ↦ rw free (contains_key-false _ _ free, refl, h, more, refl)
      ]

  search_port-full :
      (rounds : ℕ) (t t' : NatTable P) (x : NatError)
      → InRange t.next_port
      → search_port rounds t ≡ (t', err x)
      → (i : ℕ) → i < rounds
      → contains_key (address_at t (port_after i t.next_port)) t.reverse ≡ true
  unfolding search_port next
  search_port-full zero t t' x r h i below = absurd (omega arith)
  search_port-full (suc rounds) t t' x r h zero below =
      rw (port_after-zero t.next_port r) (ground arith)
  search_port-full (suc rounds) t t' x r h (suc i) below =
      let t₁ : NatTable P = record t { next_port = next t.next_port } in
      rw (port_after-suc i t.next_port r) (
        search_port-full rounds t₁ t' x (next-InRange t.next_port r) (ground arith) i (omega arith))

  -- With the next port in the range: an allocation that succeeds gives an address that is not in
  -- use, with the table's own IP address and a port of the range; one that fails says that the
  -- ports are exhausted. Either changes nothing but the next port, which stays in the range.
  pub allocate_port-Allocated :
      (t : NatTable P) → InRange t.next_port → Allocated t (allocate_port t).0 (allocate_port t).1
  unfolding allocate_port
  allocate_port-Allocated t h = search_port-Allocated port_count t h

  allocate_port-exhausted :
      (t t' : NatTable P) (x : NatError) (port : ℕ)
      → InRange t.next_port
      → allocate_port t ≡ (t', err x)
      → InRange port
      → contains_key (address_at t port) t.reverse ≡ true
  unfolding allocate_port
  allocate_port-exhausted t t' x port r h g = rw (meets t.next_port port r g) at (
      search_port-full port_count t t' x r h ((port + 25536 - t.next_port) % 25536)
        (unfold port_count in omega arith))

  -- Where the next port is in the range and at least one of the range's 25536 ports is free, the
  -- allocation succeeds, wherever the search starts.
  pub allocate_port-free :
      (t : NatTable P) (port : ℕ)
      → InRange t.next_port
      → InRange port
      → contains_key (address_at t port) t.reverse ≡ false
      → (a : SocketAddr) × ((allocate_port t).1 ≡ ok a)
  allocate_port-free t port r g free = elim (Result-cases (allocate_port t).1) [
    | inl found ↦ found
    | inr (x, e) ↦
        let full : contains_key (address_at t port) t.reverse ≡ true =
          allocate_port-exhausted t (allocate_port t).0 x port r
            (ap (λ (r : Result NatError SocketAddr). ((allocate_port t).0, r)) e) g in
        absurd (ground arith)
  ]
