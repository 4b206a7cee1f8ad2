-- ===== src/Relay/Connections/Idle.antt =====
-- The connections of a manager of relay/src/connection.rs.
use real_layer.Base.{
  ℕ, ◌+◌, ◌≤◌, ◌≡◌, List, [], ◌∷◌, String, ok, true, arith, Eq, Bool-cases, Option-cases, inl, inr,
  leb, length,
}
use real_layer.Base.Map.{
  IsUnique, get, insert, contains_key, get-retain, get-insert_same, insert-IsUnique,
  remove-IsUnique, retain-IsUnique, length-insert-le, length-insert-known, length-remove-le,
  length-retain-le,
}
use real_layer.Relay.Connections.{
  ConnectionManager, new_connections, establish, touch, close_connection, is_busy, new_record,
  cleanup_idle,
}

data Call (P : Type 0) : Type 0 where
  establishes : (now : ℕ) → P → String → Call P
  touches : (now : ℕ) → P → Call P
  closes : P → Call P
  cleans : (idle_for now : ℕ) → Call P

module _ {P : Type 0} ⦃e : Eq P⦄ where
  -- Every peer has one connection, and there are no more than allowed.
  record IsLimited (maximum : ℕ) (m : ConnectionManager P) : Type 0 where
    pub unique : IsUnique m.records
    pub bounded : length m.records ≤ m.maximum_connections
    pub same : m.maximum_connections ≡ maximum

  unfoldable apply : Call P → ConnectionManager P → ConnectionManager P
  apply (establishes now peer_id version) m = (establish now peer_id version m).0
  apply (touches now peer_id) m = (touch now peer_id m).0
  apply (closes peer_id) m = (close_connection peer_id m).0
  apply (cleans idle_for now) m = (cleanup_idle idle_for now m).0

  unfoldable run : List (Call P) → ConnectionManager P → ConnectionManager P
  run [] m = m
  run (call ∷ calls) m = run calls (apply call m)

  establish-IsLimited :
      (maximum now : ℕ) (p : P) (version : String) (m : ConnectionManager P)
      → IsLimited maximum m
      → IsLimited maximum (establish now p version m).0
  unfolding establish
  establish-IsLimited maximum now p version m k = elim (Bool-cases (contains_key p m.records)) [
    | inl known ↦ rw known k
    | inr new ↦ elim (Bool-cases (leb m.maximum_connections (length m.records))) [
      | inl full ↦ rw (new, full) k
      | inr room ↦
          rw (new, room)
            (record {
              unique = insert-IsUnique p _ m.records k.unique;
              bounded = ground (arith, length-insert-le p (new_record now p version) m.records);
              same = k.same;
            })
    ]
  ]

  touch-IsLimited :
      (maximum now : ℕ) (p : P) (m : ConnectionManager P)
      → IsLimited maximum m
      → IsLimited maximum (touch now p m).0
  unfolding touch
  touch-IsLimited maximum now p m k = elim (Option-cases (get p m.records)) [
    | inl missing ↦ rw (touch, missing) k
    | inr (r, there) ↦
        rw (touch, there)
          (record {
            unique = insert-IsUnique p _ m.records k.unique;
            bounded = rw (length-insert-known p r _ m.records k.unique there) k.bounded;
            same = k.same;
          })
  ]

  apply-IsLimited :
      (maximum : ℕ) (call : Call P) (m : ConnectionManager P)
      → IsLimited maximum m
      → IsLimited maximum (apply call m)
  unfolding apply close_connection cleanup_idle
  apply-IsLimited maximum (establishes now p version) m k =
      establish-IsLimited maximum now p version m k
  apply-IsLimited maximum (touches now p) m k = touch-IsLimited maximum now p m k
  apply-IsLimited maximum (closes p) m k = record {
    unique = remove-IsUnique p m.records k.unique;
    bounded = omega (arith, k.bounded, length-remove-le p m.records);
    same = k.same;
  }
  apply-IsLimited maximum (cleans idle_for now) m k = record {
    unique = retain-IsUnique (is_busy idle_for now) m.records k.unique;
    bounded = omega (arith, k.bounded, length-retain-le (is_busy idle_for now) m.records);
    same = k.same;
  }

  runs-IsLimited :
      (maximum : ℕ) (calls : List (Call P)) (m : ConnectionManager P)
      → IsLimited maximum m
      → IsLimited maximum (run calls m)
  unfolding run
  runs-IsLimited maximum [] m k = k
  runs-IsLimited maximum (call ∷ calls) m k =
      runs-IsLimited maximum calls (apply call m) (apply-IsLimited maximum call m k)

  -- Whatever is called on a new manager, every peer has one connection, and there are no more than
  -- the maximum that it was made with.
  run-IsLimited :
      (maximum : ℕ) (m : ConnectionManager P) (calls : List (Call P))
      → new_connections maximum ≡ ok m
      → IsLimited maximum (run calls m)
  unfolding new_connections
  run-IsLimited maximum m calls h =
      let empty : m.records ≡ [] = ground arith in
      runs-IsLimited maximum calls m
        (record { unique = rw empty tt; bounded = rw empty (omega arith); same = ground arith })

  -- A connection that is touched is still there after a cleanup at a later time, if no more than the
  -- allowed idle time has passed since.
  cleanup_idle-touch :
      (maximum now later idle_for : ℕ) (p : P) (m : ConnectionManager P)
      → IsLimited maximum m
      → (touch now p m).1 ≡ true
      → later ≤ now + idle_for
      → contains_key p (cleanup_idle idle_for later (touch now p m).0).0.records ≡ true
  unfolding touch cleanup_idle contains_key is_busy
  cleanup_idle-touch maximum now later idle_for p m k h soon =
      elim (Option-cases (get p m.records)) [
        | inl missing ↦ absurd (ground arith)
        | inr (r, there) ↦
            let r' = record r { last_activity = now } in
            let inserted = insert p r' m.records in
            rw (touch, there)
              (ground (
                arith,
                get-retain (is_busy idle_for later) p inserted
                    (insert-IsUnique p r' m.records k.unique),
                get-insert_same p r' m.records,
              ))
      ]
