-- ===== src/Network/Nat/Invariant.antt =====
-- The consistency of a `NatTable` of network/src/nat.rs over any calls.
use real_layer.Base.{
  ℕ, ◌+◌, ◌≤◌, ◌<◌, ◌≡◌, ◌≢◌, nat_eq, list_eq, refl, sym, ◌∙◌, List, [], ◌∷◌, none, some, Result,
  ok, err, arith, Eq, ◌==◌, Bool-cases, inl, inr, if◌then◌else◌, length, leb,
}
use real_layer.Base.Map.{get-empty, get, contains_key, contains_key-false, length-insert-le}
use real_layer.Network.Address.{IpAddr, SocketAddr, socket_eq}
use real_layer.Network.Session.Types.{SessionId}
use real_layer.Network.Nat.{
  NatTable, NatError, NatMapping, FlowKey, flow_eq, translated_of, is_expired, in_session, new,
  cleanup, allocate_port, add_mapping, mapping_for, create, lookup_forward, lookup_reverse,
  remove_session, first_port,
}
use real_layer.Network.Nat.Maps.{Inverse, add-Inverse}
use real_layer.Network.Nat.Sweep.{
  entries_where, keys_where, sweep-Inverse, sweep-get, length-forget_all-le, length-forget_keys-le,
}
use real_layer.Network.Nat.Ports.{InRange, Allocated, allocate_port-Allocated}

-- A call of the table's interface, with the instants it reads.
pub data Op (P : Type 0) : Type 0 where
  create_at : (now later : ℕ) → FlowKey P → Op P
  forward_at : ℕ → FlowKey P → Op P
  reverse_at : ℕ → SocketAddr → FlowKey P → Op P
  remove_all : SessionId → Op P
  cleanup_at : ℕ → Op P

module _ {P : Type 0} ⦃e : Eq P⦄ where
  -- The maps are inverse to each other, there are no more mappings than allowed, and the next port is
  -- in the range.
  pub record IsConsistent (t : NatTable P) : Type 0 where
    pub inverse : Inverse translated_of t.tables
    pub bounded : length t.mappings ≤ t.maximum_mappings
    pub range : InRange t.next_port

  new-IsConsistent :
      (ip : IpAddr) (maximum lifetime : ℕ) (t : NatTable P)
      → new ip maximum lifetime ≡ ok t
      → IsConsistent t
  unfolding new
  new-IsConsistent ip maximum lifetime t h =
      let same : (t.mappings ≡ []) × (t.reverse ≡ []) × (t.next_port ≡ first_port) = ground arith in
      record {
        inverse = record {
          unique = rw same.0 tt;
          unique_reverse = rw same.1 tt;
          forth = λ k v found. absurd (get-empty k v t.mappings same.0 found);
          back = λ a k found. absurd (get-empty a k t.reverse same.1 found);
        };
        bounded = rw same.0 (omega arith);
        range = rw same.2 (omega arith, omega arith);
      }

  pub cleanup-IsConsistent :
      (now : ℕ) (t : NatTable P) → IsConsistent t → IsConsistent (cleanup now t)
  unfolding cleanup
  cleanup-IsConsistent now t c = record {
    inverse = (sweep-Inverse translated_of (is_expired now) t.tables c.inverse).0;
    bounded = omega (
      arith,
      c.bounded,
      length-forget_all-le translated_of (is_expired now)
          (entries_where translated_of (is_expired now) t.mappings) t.tables,
    );
    range = c.range;
  }

  remove_session-IsConsistent :
      (id : SessionId) (t : NatTable P) → IsConsistent t → IsConsistent (remove_session id t)
  unfolding remove_session
  remove_session-IsConsistent id t c = record {
    inverse = (sweep-Inverse translated_of (in_session id) t.tables c.inverse).1;
    bounded = omega (
      arith,
      c.bounded,
      length-forget_keys-le translated_of (in_session id)
          (keys_where translated_of (in_session id) t.mappings) t.tables,
    );
    range = c.range;
  }

  add_mapping-IsConsistent :
      (key : FlowKey P) (now : ℕ) (t t' : NatTable P) (r : Result NatError SocketAddr)
      → IsConsistent t
      → get key t.mappings ≡ none
      → length t.mappings < t.maximum_mappings
      → Allocated t t' r
      → IsConsistent (add_mapping key now (t', r)).0
  unfolding add_mapping
  add_mapping-IsConsistent key now t t' (ok a) c new room (unused, own, range, range', same) =
      rw same record {
        inverse =
            add-Inverse translated_of t.tables key (mapping_for key a (now + t.lifetime)) c.inverse
              new unused;
        bounded =
            omega
              (arith, room, length-insert-le key (mapping_for key a (now + t.lifetime)) t.mappings);
        range = range';
      }
  add_mapping-IsConsistent key now t t' (err x) c new room (which, range', same) =
      rw same record { inverse = c.inverse; bounded = c.bounded; range = range' }

  pub create-IsConsistent :
      (now later : ℕ) (key : FlowKey P) (t : NatTable P)
      → IsConsistent t
      → IsConsistent (create now later key t).0
  unfolding create
  create-IsConsistent now later key t c =
      let c' = cleanup-IsConsistent now t c in
      let t₁ = cleanup now t in
      elim (Bool-cases (contains_key key t₁.mappings)) [
        | inl known ↦ rw known c'
        | inr new ↦ elim (Bool-cases (leb t₁.maximum_mappings (length t₁.mappings))) [
          | inl full ↦ rw (new, full) c'
          | inr room ↦
              rw (new, room)
                (add_mapping-IsConsistent key later t₁ (allocate_port t₁).0 (allocate_port t₁).1 c'
                  (contains_key-false key t₁.mappings new) (ground arith)
                  (allocate_port-Allocated t₁ c'.range))
        ]
      ]

  unfoldable pub apply : Op P → NatTable P → NatTable P
  apply (create_at now later key) t = (create now later key t).0
  apply (forward_at now key) t = (lookup_forward now key t).0
  apply (reverse_at now a key) t = (lookup_reverse now a key t).0
  apply (remove_all id) t = remove_session id t
  apply (cleanup_at now) t = cleanup now t

  unfoldable pub run : List (Op P) → NatTable P → NatTable P
  run [] t = t
  run (op ∷ ops) t = run ops (apply op t)

  apply-IsConsistent : (op : Op P) (t : NatTable P) → IsConsistent t → IsConsistent (apply op t)
  unfolding apply lookup_forward lookup_reverse
  apply-IsConsistent (create_at now later key) t c = create-IsConsistent now later key t c
  apply-IsConsistent (forward_at now key) t c = cleanup-IsConsistent now t c
  apply-IsConsistent (reverse_at now a key) t c = cleanup-IsConsistent now t c
  apply-IsConsistent (remove_all id) t c = remove_session-IsConsistent id t c
  apply-IsConsistent (cleanup_at now) t c = cleanup-IsConsistent now t c

  run-keeps : (ops : List (Op P)) (t : NatTable P) → IsConsistent t → IsConsistent (run ops t)
  unfolding run
  run-keeps [] t c = c
  run-keeps (op ∷ ops) t c = run-keeps ops (apply op t) (apply-IsConsistent op t c)

  -- Whatever is called on a table that `new` made, its two maps stay inverse to each other, it holds
  -- no more mappings than it allows, and its next port is in the range.
  pub run-IsConsistent :
      (ip : IpAddr) (maximum lifetime : ℕ) (t : NatTable P) (ops : List (Op P))
      → new ip maximum lifetime ≡ ok t
      → IsConsistent (run ops t)
  run-IsConsistent ip maximum lifetime t ops h =
      run-keeps ops t (new-IsConsistent ip maximum lifetime t h)

  -- In a consistent table, the mappings of two different flows have different translated addresses.
  translated-distinct :
      (t : NatTable P) (k j : FlowKey P) (v w : NatMapping P)
      → IsConsistent t
      → get k t.mappings ≡ some v
      → get j t.mappings ≡ some w
      → k ≢ j
      → v.translated ≢ w.translated
  translated-distinct t k j v w c found found' other same =
      let a = c.inverse.forth k v found in
      let b = c.inverse.forth j w found' in other (ground (arith, rw (sym same) at b))

  -- In a consistent table, `cleanup` removes the mappings that have expired, `remove_session` those of
  -- the session, and neither any other.
  pub sweep-exact :
      (now : ℕ) (id : SessionId) (t : NatTable P) (k : FlowKey P) (v : NatMapping P)
      → IsConsistent t
      → get k t.mappings ≡ some v
      → (get k (cleanup now t).mappings ≡ (if leb v.expires_at now then none else some v))
        × (get k (remove_session id t).mappings ≡ (if k.session_id == id then none else some v))
  unfolding cleanup remove_session
  sweep-exact now id t k v c found = (
    (sweep-get translated_of (is_expired now) t.tables k c.inverse).0 ∙ rw found refl,
    (sweep-get translated_of (in_session id) t.tables k c.inverse).1 ∙ rw found refl,
  )
