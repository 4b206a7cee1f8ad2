-- ===== src/Relay/Sessions/Limits.antt =====
-- The sessions of a manager of relay/src/session_manager.rs, over any calls.
use real_layer.Base.{
  ℕ, Bool, ◌≤◌, ◌≡◌, List, [], ◌∷◌, Option, none, some, ok, arith, ◌==◌, nat_eq, list_eq,
  list_beq_iff, Bool-cases, inl, inr, leb, length, if◌then◌else◌,
}
use real_layer.Base.Map.{
  IsUnique, keep, get, contains_key, retain, get-empty, get-insert, get-retain, get-remove-some,
  insert-IsUnique, remove-IsUnique, retain-IsUnique, length-insert-le, length-remove-le,
  length-retain-le,
}
use real_layer.Network.Session.Types.{SessionId}
use real_layer.Relay.Sessions.{
  SessionManager, SessionBinding, new_sessions, is_active, cleanup_sessions, insert_binding,
  insert_session, find_session, drop_binding,
}

data Call (P : Type 0) : Type 0 where
  inserts : (now : ℕ) → SessionBinding P → Call P
  drops : SessionId → Call P
  cleans : (now : ℕ) → Call P

module _ {P : Type 0} where
  -- Every session stands once, under its own identifier, and there are no more than allowed.
  record IsLimited (maximum : ℕ) (m : SessionManager P) : Type 0 where
    pub unique : IsUnique m.sessions
    pub own :
        (id : SessionId) (s : SessionBinding P) → get id m.sessions ≡ some s → s.session_id ≡ id
    pub bounded : length m.sessions ≤ m.maximum_sessions
    pub same : m.maximum_sessions ≡ maximum

  unfoldable apply : Call P → SessionManager P → SessionManager P
  apply (inserts now s) m = (insert_session now s m).0
  apply (drops id) m = (drop_binding id m).0
  apply (cleans now) m = cleanup_sessions now m

  unfoldable run : List (Call P) → SessionManager P → SessionManager P
  run [] m = m
  run (call ∷ calls) m = run calls (apply call m)

  keep-some :
      (p : SessionBinding P → Bool) (o : Option (SessionBinding P)) (s : SessionBinding P)
      → keep p o ≡ some s
      → o ≡ some s
  keep-some p none s h = absurd (ground arith)
  keep-some p (some t) s h = ground arith

  cleanup_sessions-IsLimited :
      (maximum now : ℕ) (m : SessionManager P)
      → IsLimited maximum m
      → IsLimited maximum (cleanup_sessions now m)
  unfolding cleanup_sessions
  cleanup_sessions-IsLimited maximum now m k = record {
    unique = retain-IsUnique (is_active m.timeout now) m.sessions k.unique;
    own = λ id s found. k.own id s (
        keep-some (is_active m.timeout now) (get id m.sessions) s
          (rw (← get-retain (is_active m.timeout now) id m.sessions k.unique) found));
    bounded = omega (arith, k.bounded, length-retain-le (is_active m.timeout now) m.sessions);
    same = k.same;
  }

  insert_binding-IsLimited :
      (maximum : ℕ) (b : SessionBinding P) (m : SessionManager P)
      → IsLimited maximum m
      → IsLimited maximum (insert_binding b m).0
  unfolding insert_binding
  insert_binding-IsLimited maximum b m k =
      elim (Bool-cases (contains_key b.session_id m.sessions)) [
        | inl known ↦ rw known k
        | inr new ↦ elim (Bool-cases (leb m.maximum_sessions (length m.sessions))) [
          | inl full ↦ rw (new, full) k
          | inr room ↦
              rw (new, room)
                (record {
                  unique = insert-IsUnique b.session_id b m.sessions k.unique;
                  own = λ id s found. ground (
                    arith,
                    get-insert b.session_id id b m.sessions,
                    list_beq_iff b.session_id id,
                    k.own id s,
                  );
                  bounded = ground (arith, length-insert-le b.session_id b m.sessions);
                  same = k.same;
                })
        ]
      ]

  drop_binding-IsLimited :
      (maximum : ℕ) (id : SessionId) (m : SessionManager P)
      → IsLimited maximum m
      → IsLimited maximum (drop_binding id m).0
  unfolding drop_binding
  drop_binding-IsLimited maximum id m k = record {
    unique = remove-IsUnique id m.sessions k.unique;
    own = λ j s found. k.own j s (get-remove-some id j s m.sessions found).1;
    bounded = omega (arith, k.bounded, length-remove-le id m.sessions);
    same = k.same;
  }

  new_sessions-IsLimited :
      (maximum timeout : ℕ) (m : SessionManager P)
      → new_sessions maximum timeout ≡ ok m
      → IsLimited maximum m
  unfolding new_sessions
  new_sessions-IsLimited maximum timeout m h =
      let empty : m.sessions ≡ [] = ground arith in
      record {
        unique = rw empty tt;
        own = λ id s found. absurd (get-empty id s m.sessions empty found);
        bounded = rw empty (omega arith);
        same = ground arith;
      }

  runs-IsLimited :
      (maximum : ℕ) (calls : List (Call P)) (m : SessionManager P)
      → IsLimited maximum m
      → IsLimited maximum (run calls m)
  unfolding run apply insert_session
  runs-IsLimited maximum [] m k = k
  runs-IsLimited maximum (inserts now s ∷ calls) m k =
      runs-IsLimited maximum calls (insert_session now s m).0 (
        insert_binding-IsLimited maximum s (cleanup_sessions now m)
          (cleanup_sessions-IsLimited maximum now m k))
  runs-IsLimited maximum (drops id ∷ calls) m k =
      runs-IsLimited maximum calls (drop_binding id m).0 (drop_binding-IsLimited maximum id m k)
  runs-IsLimited maximum (cleans now ∷ calls) m k =
      runs-IsLimited maximum calls (cleanup_sessions now m)
        (cleanup_sessions-IsLimited maximum now m k)

  -- Whatever is called on a new manager, every session stands once, under its own identifier, and
  -- there are no more than the maximum that it was made with.
  run-IsLimited :
      (maximum timeout : ℕ) (m : SessionManager P) (calls : List (Call P))
      → new_sessions maximum timeout ≡ ok m
      → IsLimited maximum (run calls m)
  run-IsLimited maximum timeout m calls h =
      runs-IsLimited maximum calls m (new_sessions-IsLimited maximum timeout m h)

  -- A session that is inserted is the one found under its identifier; under any other, what was found
  -- before is found if it is still active, and nothing else.
  find_session-insert_session :
      (maximum now : ℕ) (b : SessionBinding P) (m : SessionManager P) (id : SessionId)
      → IsLimited maximum m
      → (insert_session now b m).1 ≡ ok tt
      → find_session id (insert_session now b m).0 ≡ (
          if b.session_id == id then some b else keep (is_active m.timeout now) (find_session id m))
  unfolding insert_session insert_binding cleanup_sessions find_session
  find_session-insert_session maximum now b m id k h =
      let live = retain (is_active m.timeout now) m.sessions in
      ground (
        arith,
        h,
        get-insert b.session_id id b live,
        get-retain (is_active m.timeout now) id m.sessions k.unique,
      )
