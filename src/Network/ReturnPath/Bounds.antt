-- ===== src/Network/ReturnPath/Bounds.antt =====
-- The calls of the table of network/src/return_path.rs, and its bound.
use real_layer.Base.{
  ℕ, ◌+◌, ◌≤◌, ◌||◌, Result, ok, err, arith, Eq, nat_eq, list_eq, ltb, leb, length, Bool-cases, inl,
  inr,
}
use real_layer.Base.Map.{
  IsUnique, contains_key, insert-IsUnique, remove-IsUnique, retain-IsUnique, length-insert-le,
  length-remove-le, length-retain-le,
}
use real_layer.Network.Session.Types.{SessionId}
use real_layer.Network.ReturnPath.{
  ReturnPathKey, ReturnPathMapping, ReturnPathTable, ReturnPathError, path_eq, is_waiting, not_of,
  expire, register, find, lookup, spend, consume, drop_session,
}

-- A call of the table's interface, with the instants it reads.
pub data Op (P : Type 0) : Type 0 where
  register_at : (now later : ℕ) → ReturnPathKey P → Op P
  lookup_at : ℕ → SessionId → ReturnPathKey P → Op P
  consume_at : (now later : ℕ) → SessionId → ReturnPathKey P → Op P
  drop_all : SessionId → Op P
  expire_at : ℕ → Op P

module _ {P : Type 0} ⦃e : Eq P⦄ where
  unfoldable pub apply : Op P → ReturnPathTable P → ReturnPathTable P
  apply (register_at now later key) t = (register now later key t).0
  apply (lookup_at now id key) t = (lookup now id key t).0
  apply (consume_at now later id key) t = (consume now later id key t).0
  apply (drop_all id) t = drop_session id t
  apply (expire_at now) t = expire now t

  -- No key stands twice, and there are no more entries than allowed.
  pub record IsBounded (t : ReturnPathTable P) : Type 0 where
    pub unique : IsUnique t.entries
    pub unique_consumed : IsUnique t.consumed
    pub bounded : length t.entries ≤ t.maximum

  pub expire-IsBounded : (now : ℕ) (t : ReturnPathTable P) → IsBounded t → IsBounded (expire now t)
  unfolding expire
  expire-IsBounded now t b = record {
    unique = retain-IsUnique (is_waiting now) t.entries b.unique;
    unique_consumed = retain-IsUnique (ltb now) t.consumed b.unique_consumed;
    bounded = omega (arith, b.bounded, length-retain-le (is_waiting now) t.entries);
  }

  register-IsBounded :
      (now later : ℕ) (key : ReturnPathKey P) (t : ReturnPathTable P)
      → IsBounded t
      → IsBounded (register now later key t).0
  unfolding register
  register-IsBounded now later key t b =
      let t₁ = expire now t in
      let b₁ = expire-IsBounded now t b in
      let m : ReturnPathMapping P = record { key = key; expires_at = later + t₁.lifetime } in
      elim (Bool-cases
        (contains_key key.packet_id t₁.entries || contains_key key.packet_id t₁.consumed)) [
          | inl known ↦ rw known b₁
          | inr new ↦ elim (Bool-cases (leb t₁.maximum (length t₁.entries))) [
            | inl full ↦ rw (new, full) b₁
            | inr room ↦
                rw (new, room)
                  (record {
                    unique = insert-IsUnique key.packet_id m t₁.entries b₁.unique;
                    unique_consumed = b₁.unique_consumed;
                    bounded = ground (arith, length-insert-le key.packet_id m t₁.entries);
                  })
          ]
        ]

  spend-IsBounded :
      (later : ℕ) (id : SessionId) (t : ReturnPathTable P)
      (r : Result ReturnPathError (ReturnPathMapping P))
      → IsBounded t
      → IsBounded (spend later id (t, r)).0
  unfolding spend
  spend-IsBounded later id t (err x) b = b
  spend-IsBounded later id t (ok m) b = record {
    unique = remove-IsUnique id t.entries b.unique;
    unique_consumed = insert-IsUnique id (later + t.lifetime) t.consumed b.unique_consumed;
    bounded = omega (arith, b.bounded, length-remove-le id t.entries);
  }

  drop_session-IsBounded :
      (id : SessionId) (t : ReturnPathTable P) → IsBounded t → IsBounded (drop_session id t)
  unfolding drop_session
  drop_session-IsBounded id t b = record {
    unique = retain-IsUnique (not_of id) t.entries b.unique;
    unique_consumed = b.unique_consumed;
    bounded = omega (arith, b.bounded, length-retain-le (not_of id) t.entries);
  }

  -- Every method leaves a bounded table bounded: no packet identifier stands twice, and there are no
  -- more waiting packets than allowed.
  apply-IsBounded : (op : Op P) (t : ReturnPathTable P) → IsBounded t → IsBounded (apply op t)
  unfolding apply lookup consume
  apply-IsBounded (register_at now later key) t b = register-IsBounded now later key t b
  apply-IsBounded (lookup_at now id key) t b = expire-IsBounded now t b
  apply-IsBounded (consume_at now later id key) t b =
      spend-IsBounded later id (expire now t) (find id key (expire now t))
        (expire-IsBounded now t b)
  apply-IsBounded (drop_all id) t b = drop_session-IsBounded id t b
  apply-IsBounded (expire_at now) t b = expire-IsBounded now t b
