-- ===== src/Network/ReturnPath/Expiry.antt =====
-- `insert`, `lookup` and `consume` of network/src/return_path.rs, and the readings of the clock.
use real_layer.Base.{
  ℕ, List, [], ◌∷◌, All, list_beq_iff, ◌+◌, ◌<◌, ◌≡◌, refl, ◌||◌, none, some, Result, ok, err,
  arith, Eq, ==_refl, nat_eq, list_eq, ltb, leb, length, Bool-cases, Result-cases, Option-cases,
  inl, inr,
}
use real_layer.Base.Map.{
  IsUnique, get, insert, remove, contains_key, get-retain, get-insert, get-remove, insert-IsUnique,
  remove-IsUnique, retain-IsUnique,
}
use real_layer.Network.Session.Types.{SessionId}
use real_layer.Network.ReturnPath.{
  ReturnPathKey, ReturnPathMapping, ReturnPathTable, ReturnPathError, path_eq, path_beq_iff,
  is_waiting, not_of, expire, register, find, lookup, spend, consume, drop_session, replayed,
  duplicate,
}
use real_layer.Network.ReturnPath.Bounds.{
  Op, register_at, lookup_at, consume_at, drop_all, expire_at, apply, IsBounded, expire-IsBounded,
}

module _ {P : Type 0} ⦃e : Eq P⦄ where
  find-ok :
      (id : SessionId) (key : ReturnPathKey P) (t : ReturnPathTable P) (m : ReturnPathMapping P)
      → find id key t ≡ ok m
      → (get id t.entries ≡ some m) × (m.key ≡ key)
  unfolding find
  find-ok id key t m h = elim (Option-cases (get id t.entries)) [
    | inl missing ↦ ground arith
    | inr (n, found) ↦ ground (arith, path_beq_iff n.key key)
  ]

  spend-ok :
      (later : ℕ) (id : SessionId) (t t' : ReturnPathTable P)
      (r : Result ReturnPathError (ReturnPathMapping P)) (m : ReturnPathMapping P)
      → spend later id (t, r) ≡ (t', ok m)
      → (r ≡ ok m)
        × (t' ≡ record t {
          entries = remove id t.entries;
          consumed = insert id (later + t.lifetime) t.consumed;
        })
  unfolding spend
  spend-ok later id t t' (ok n) m h = ground arith
  spend-ok later id t t' (err x) m h = ground arith

  -- Consumed, and remembered until `x`.
  pub record IsSpent (id : SessionId) (x : ℕ) (t : ReturnPathTable P) : Type 0 where
    pub unique : IsUnique t.entries
    pub unique_consumed : IsUnique t.consumed
    pub gone : get id t.entries ≡ none
    pub remembered : get id t.consumed ≡ some x

  consume-IsSpent :
      (now later : ℕ) (id : SessionId) (key : ReturnPathKey P) (t t' : ReturnPathTable P)
      (m : ReturnPathMapping P)
      → IsBounded t
      → consume now later id key t ≡ (t', ok m)
      → IsSpent id (later + t.lifetime) t'
  unfolding consume lookup
  consume-IsSpent now later id key t t' m b h =
      let t₁ = expire now t in
      let b₁ = expire-IsBounded now t b in
      let (found, same) = spend-ok later id t₁ t' (find id key t₁) m h in
      rw same (record {
        unique = remove-IsUnique id t₁.entries b₁.unique;
        unique_consumed = insert-IsUnique id (later + t₁.lifetime) t₁.consumed b₁.unique_consumed;
        gone = rw (get-remove id id t₁.entries, ==_refl id) refl;
        remembered =
            rw (get-insert id id (later + t₁.lifetime) t₁.consumed, ==_refl id)
              (unfold expire in refl);
      })

  expire-IsSpent :
      (now x : ℕ) (id : SessionId) (t : ReturnPathTable P)
      → IsSpent id x t
      → now < x
      → IsSpent id x (expire now t)
  unfolding expire
  expire-IsSpent now x id t s live = record {
    unique = retain-IsUnique (is_waiting now) t.entries s.unique;
    unique_consumed = retain-IsUnique (ltb now) t.consumed s.unique_consumed;
    gone = rw (get-retain (is_waiting now) id t.entries s.unique, s.gone) refl;
    remembered = ground (arith, get-retain (ltb now) id t.consumed s.unique_consumed, s.remembered);
  }

  find-IsSpent :
      (x : ℕ) (id : SessionId) (key : ReturnPathKey P) (t : ReturnPathTable P)
      → IsSpent id x t
      → find id key t ≡ err replayed
  unfolding find contains_key
  find-IsSpent x id key t s = ground (arith, s.gone, s.remembered)

  register-IsSpent :
      (now later x : ℕ) (id : SessionId) (key : ReturnPathKey P) (t : ReturnPathTable P)
      → IsSpent id x t
      → now < x
      → IsSpent id x (register now later key t).0
  unfolding register contains_key
  register-IsSpent now later x id key t s live =
      let t₁ = expire now t in
      let s₁ = expire-IsSpent now x id t s live in
      let m : ReturnPathMapping P = record { key = key; expires_at = later + t₁.lifetime } in
      elim (Bool-cases
        (contains_key key.packet_id t₁.entries || contains_key key.packet_id t₁.consumed)) [
          | inl known ↦ rw known s₁
          | inr new ↦ elim (Bool-cases (leb t₁.maximum (length t₁.entries))) [
            | inl full ↦ rw (new, full) s₁
            | inr room ↦
                rw (new, room)
                  (record {
                    unique = insert-IsUnique key.packet_id m t₁.entries s₁.unique;
                    unique_consumed = s₁.unique_consumed;
                    gone = ground (
                      arith,
                      get-insert key.packet_id id m t₁.entries,
                      list_beq_iff key.packet_id id,
                      s₁.gone,
                      s₁.remembered,
                    );
                    remembered = s₁.remembered;
                  })
          ]
        ]

  spend-IsSpent :
      (later x : ℕ) (id other : SessionId) (key : ReturnPathKey P) (t : ReturnPathTable P)
      → IsSpent id x t
      → IsSpent id x (spend later other (t, find other key t)).0
  unfolding spend
  spend-IsSpent later x id other key t s = elim (Result-cases (find other key t)) [
    | inr (e, failed) ↦ rw failed s
    | inl (m, found) ↦
        let there = (find-ok other key t m found).0 in
        rw found (record {
          unique = remove-IsUnique other t.entries s.unique;
          unique_consumed = insert-IsUnique other (later + t.lifetime) t.consumed s.unique_consumed;
          gone = ground (arith, get-remove other id t.entries, s.gone);
          remembered = ground (
            arith,
            get-insert other id (later + t.lifetime) t.consumed,
            list_beq_iff other id,
            s.gone,
            s.remembered,
            there,
          );
        })
  ]

  drop_session-IsSpent :
      (x : ℕ) (id session : SessionId) (t : ReturnPathTable P)
      → IsSpent id x t
      → IsSpent id x (drop_session session t)
  unfolding drop_session
  drop_session-IsSpent x id session t s = record {
    unique = retain-IsUnique (not_of session) t.entries s.unique;
    unique_consumed = s.unique_consumed;
    gone = rw (get-retain (not_of session) id t.entries s.unique, s.gone) refl;
    remembered = s.remembered;
  }

  -- A call that cleans up before the instant `x`.
  abbrev pub IsBefore : ℕ → Op P → Type 0
  IsBefore x (register_at now later key) = now < x
  IsBefore x (lookup_at now id key) = now < x
  IsBefore x (consume_at now later id key) = now < x
  IsBefore x (drop_all id) = Unit
  IsBefore x (expire_at now) = now < x

  apply-IsSpent :
      (x : ℕ) (id : SessionId) (op : Op P) (t : ReturnPathTable P)
      → IsSpent id x t
      → IsBefore x op
      → IsSpent id x (apply op t)
  unfolding apply lookup consume
  apply-IsSpent x id (register_at now later key) t s live =
      register-IsSpent now later x id key t s live
  apply-IsSpent x id (lookup_at now other key) t s live = expire-IsSpent now x id t s live
  apply-IsSpent x id (consume_at now later other key) t s live =
      spend-IsSpent later x id other key (expire now t) (expire-IsSpent now x id t s live)
  apply-IsSpent x id (drop_all session) t s live = drop_session-IsSpent x id session t s
  apply-IsSpent x id (expire_at now) t s live = expire-IsSpent now x id t s live

  unfoldable pub run : List (Op P) → ReturnPathTable P → ReturnPathTable P
  unfolding apply
  run [] t = t
  run (op ∷ ops) t = run ops (apply op t)

  run-IsSpent :
      (x : ℕ) (id : SessionId) (ops : List (Op P)) (t : ReturnPathTable P)
      → IsSpent id x t
      → All (IsBefore x) ops
      → IsSpent id x (run ops t)
  unfolding run
  run-IsSpent x id [] t s h = s
  run-IsSpent x id (op ∷ ops) t s h =
      run-IsSpent x id ops (apply op t) (apply-IsSpent x id op t s h.0) h.1

  -- A packet that was consumed from a bounded table is not looked up, consumed or registered again,
  -- under any key, whatever calls come between, until its lifetime is over; the lifetime counts from
  -- the second reading of the clock.
  pub consume_once :
      (now later after : ℕ) (id : SessionId) (key other : ReturnPathKey P)
      (t t' : ReturnPathTable P) (m : ReturnPathMapping P) (ops : List (Op P))
      → IsBounded t
      → consume now later id key t ≡ (t', ok m)
      → All (IsBefore (later + t.lifetime)) ops
      → after < later + t.lifetime
      → ((lookup after id other (run ops t')).1 ≡ err replayed)
        × ((consume after after id other (run ops t')).1 ≡ err replayed)
        × ((register after after (record other { packet_id = id }) (run ops t')).1 ≡ err duplicate)
  unfolding consume lookup spend register contains_key
  consume_once now later after id key other t t' m ops b h before live =
      let x = later + t.lifetime in
      let spent =
        expire-IsSpent after x id (run ops t')
          (run-IsSpent x id ops t' (consume-IsSpent now later id key t t' m b (unfold consume in h))
            before)
          live in
      let replay = find-IsSpent x id other (expire after (run ops t')) spent in
      (replay, rw (replay, spend) refl, ground (arith, spent.gone, spent.remembered))

  -- What `consume` returns from a bounded table is the mapping of the given key under the given
  -- identifier, and it had not expired.
  consume-ok :
      (now later : ℕ) (id : SessionId) (key : ReturnPathKey P) (t t' : ReturnPathTable P)
      (m : ReturnPathMapping P)
      → IsBounded t
      → consume now later id key t ≡ (t', ok m)
      → (get id t.entries ≡ some m) × (m.key ≡ key) × (now < m.expires_at)
  unfolding consume lookup expire
  consume-ok now later id key t t' m b h =
      let t₁ = expire now t in
      let (found, _) = spend-ok later id t₁ t' (find id key t₁) m h in
      let (stored, same) = find-ok id key t₁ m found in
      let kept = get-retain (is_waiting now) id t.entries b.unique in
      elim (Option-cases (get id t.entries)) [
        | inl missing ↦ absurd (ground arith)
        | inr (n, there) ↦ elim (Bool-cases (is_waiting now n)) [
          | inl waits ↦ ground arith
          | inr over ↦ absurd (ground arith)
        ]
      ]
