-- ===== src/Network/Nat/RoundTrip.antt =====
-- `NatTable::create` and the lookups of network/src/nat.rs.
use real_layer.Base.{
  ℕ, ◌+◌, ◌<◌, ◌≡◌, ◌≢◌, ap, refl, some, Result, ok, err, arith, Eq, ==_refl, ==_ne, Bool-cases,
  inl, inr, length, leb,
}
use real_layer.Base.Map.{get, get-insert, contains_key}
use real_layer.Network.Address.{SocketAddr, socket_eq}
use real_layer.Network.Nat.{
  NatTable, NatError, NatMapping, FlowKey, flow_eq, cleanup, allocate_port, add_mapping,
  mapping_for, create, lookup_forward, lookup_reverse, find_reverse, binding_mismatch,
}
use real_layer.Network.Nat.Invariant.{
  IsConsistent, cleanup-IsConsistent, create-IsConsistent, sweep-exact,
}
use real_layer.Network.Nat.Ports.{Allocated, allocate_port-Allocated}

module _ {P : Type 0} ⦃e : Eq P⦄ where
  -- The mapping is stored under its key with a new lifetime, and carries the key's fields.
  Stored : FlowKey P → ℕ → NatTable P → Result NatError (NatMapping P) → Type 0
  Stored key expires t (err x) = Unit
  Stored key expires t (ok m) =
      (get key t.mappings ≡ some m) × (m ≡ mapping_for key m.translated expires)

  add_mapping-Stored :
      (key : FlowKey P) (now : ℕ) (s : NatTable P × Result NatError SocketAddr)
      → Stored key (now + s.0.lifetime) (add_mapping key now s).0 (add_mapping key now s).1
  unfolding Stored add_mapping
  add_mapping-Stored key now (t, err x) = tt
  add_mapping-Stored key now (t, ok a) = (
    rw (get-insert key key (mapping_for key a (now + t.lifetime)) t.mappings, ==_refl key) refl,
    refl,
  )

  create-Stored :
      (now later : ℕ) (key : FlowKey P) (t : NatTable P)
      → Stored key
          (later + (allocate_port (cleanup now t)).0.lifetime)
          (create now later key t).0
          (create now later key t).1
  unfolding create Stored
  create-Stored now later key t =
      let t₁ = cleanup now t in
      elim (Bool-cases (contains_key key t₁.mappings)) [
        | inl known ↦ rw known tt
        | inr new ↦ elim (Bool-cases (leb t₁.maximum_mappings (length t₁.mappings))) [
          | inl full ↦ rw (new, full) tt
          | inr room ↦ rw (new, room) (add_mapping-Stored key later (allocate_port t₁))
        ]
      ]

  find_reverse-ok :
      (t : NatTable P) (k : FlowKey P) (v : NatMapping P)
      → IsConsistent t
      → get k t.mappings ≡ some v
      → find_reverse v.translated k t ≡ ok v
  unfolding find_reverse
  find_reverse-ok t k v c found = rw (c.inverse.forth k v found, ==_refl k, found) refl

  find_reverse-mismatch :
      (t : NatTable P) (k j : FlowKey P) (v : NatMapping P)
      → IsConsistent t
      → get k t.mappings ≡ some v
      → k ≢ j
      → find_reverse v.translated j t ≡ err binding_mismatch
  unfolding find_reverse
  find_reverse-mismatch t k j v c found ne = rw (c.inverse.forth k v found, ==_ne k j ne) refl

  -- A mapping that a consistent table holds and that has not expired is found by its key, and by its
  -- translated address with that key; with any other key the reverse lookup reports a mismatch.
  lookup-live :
      (now : ℕ) (t : NatTable P) (k j : FlowKey P) (v : NatMapping P)
      → IsConsistent t
      → get k t.mappings ≡ some v
      → now < v.expires_at
      → k ≢ j
      → ((lookup_forward now k t).1 ≡ some v)
        × ((lookup_reverse now v.translated k t).1 ≡ ok v)
        × ((lookup_reverse now v.translated j t).1 ≡ err binding_mismatch)
  unfolding lookup_forward lookup_reverse
  lookup-live now t k j v c found live ne =
      let kept : get k (cleanup now t).mappings ≡ some v =
        ground (arith, (sweep-exact now k.session_id t k v c found).0) in
      let c' = cleanup-IsConsistent now t c in
      (
        kept,
        find_reverse-ok (cleanup now t) k v c' kept,
        find_reverse-mismatch (cleanup now t) k j v c' kept ne,
      )

  Allocated-lifetime :
      (t t' : NatTable P) (r : Result NatError SocketAddr)
      → Allocated t t' r
      → t'.lifetime ≡ t.lifetime
  Allocated-lifetime t t' (ok a) (unused, own, range, range', same) = rw same refl
  Allocated-lifetime t t' (err x) (which, range', same) = rw same refl

  -- A mapping that `create` makes in a consistent table has the fields of its key. Until its
  -- lifetime, from the second reading of the clock, is over, the forward lookup finds it by its
  -- key and the reverse lookup by its address, and the reverse lookup with another key reports a
  -- mismatch.
  pub create-lookup :
      (now later after : ℕ) (t t' : NatTable P) (k j : FlowKey P) (v : NatMapping P)
      → IsConsistent t
      → create now later k t ≡ (t', ok v)
      → after < later + t.lifetime
      → k ≢ j
      → (v ≡ mapping_for k v.translated (later + t.lifetime))
        × ((lookup_forward after k t').1 ≡ some v)
        × ((lookup_reverse after v.translated k t').1 ≡ ok v)
        × ((lookup_reverse after v.translated j t').1 ≡ err binding_mismatch)
  unfolding Stored cleanup
  create-lookup now later after t t' k j v c made live ne =
      let stored = rw made at (create-Stored now later k t) in
      let c' : IsConsistent t' = rw made at (create-IsConsistent now later k t c) in
      let t₁ = cleanup now t in
      let same : (allocate_port t₁).0.lifetime ≡ t.lifetime =
        Allocated-lifetime t₁ (allocate_port t₁).0 (allocate_port t₁).1
          (allocate_port-Allocated t₁ c.range) in
      let shape : v ≡ mapping_for k v.translated (later + t.lifetime) = rw same at stored.1 in
      let found =
        lookup-live after t' k j v c' stored.0 (ground (arith, ap (λ m. m.expires_at) shape)) ne in
      (shape, found.0, found.1, found.2)
