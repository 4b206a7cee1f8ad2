-- ===== src/Relay/ForwardingManager/Flows.antt =====
-- The circuits of a manager of relay/src/forwarding_manager.rs, over any calls.
use real_layer.Base.{
  ℕ, ◌≤◌, ◌≡◌, ◌↔◌, List, [], ◌∷◌, some, ok, arith, nat_eq, list_eq, list_beq_iff, Bool-cases,
  Option-cases, Result-cases, inl, inr, leb, length,
}
use real_layer.Base.Map.{
  IsUnique, get, contains_key, get-empty, get-insert, get-remove-some, insert-IsUnique,
  remove-IsUnique, length-insert-le, length-remove-le,
}
use real_layer.Network.Session.Types.{SessionId}
use real_layer.Network.Session.Primitives.{Primitives}
use real_layer.Relay.Forwarding.{ForwardingContext, ForwardingMessage, validate_message}
use real_layer.Relay.Forwarding.Messages.{Matches, validate_message_iff}
use real_layer.Relay.ForwardingManager.{
  ForwardingManager, new_manager, admit_flow, validate_flow, remove_flow,
}

pub data Op (P : Type 0) : Type 0 where
  admit_it : ForwardingContext P → Op P
  remove_it : SessionId → Op P

module _ (lib : Primitives) where
  open lib use {PeerId}

  -- Every context stands once, under its own identifier, and there are no more than allowed.
  pub record IsKeyed (m : ForwardingManager PeerId) : Type 0 where
    pub unique : IsUnique m.contexts
    pub own :
        (id : SessionId) (c : ForwardingContext PeerId)
        → get id m.contexts ≡ some c
        → c.forwarding_id ≡ id
    pub bounded : length m.contexts ≤ m.maximum_flows

  unfoldable pub apply : Op PeerId → ForwardingManager PeerId → ForwardingManager PeerId
  apply (admit_it c) m = (admit_flow lib c m).0
  apply (remove_it id) m = remove_flow lib id m

  unfoldable pub run : List (Op PeerId) → ForwardingManager PeerId → ForwardingManager PeerId
  run [] m = m
  run (op ∷ ops) m = run ops (apply op m)

  admit_flow-IsKeyed :
      (c : ForwardingContext PeerId) (m : ForwardingManager PeerId)
      → IsKeyed m
      → IsKeyed (admit_flow lib c m).0
  unfolding admit_flow
  admit_flow-IsKeyed c m k = elim (Bool-cases (leb m.maximum_flows (length m.contexts))) [
    | inl full ↦ rw full k
    | inr room ↦ elim (Bool-cases (contains_key c.forwarding_id m.contexts)) [
      | inl known ↦ rw (room, known) k
      | inr new ↦
          rw (room, new)
            (record {
              unique = insert-IsUnique c.forwarding_id c m.contexts k.unique;
              own = λ id d found. ground (
                arith,
                get-insert c.forwarding_id id c m.contexts,
                list_beq_iff c.forwarding_id id,
                k.own id d,
              );
              bounded = ground (arith, length-insert-le c.forwarding_id c m.contexts);
            })
    ]
  ]

  remove_flow-IsKeyed :
      (id : SessionId) (m : ForwardingManager PeerId) → IsKeyed m → IsKeyed (remove_flow lib id m)
  unfolding remove_flow
  remove_flow-IsKeyed id m k = record {
    unique = remove-IsUnique id m.contexts k.unique;
    own = λ j c found. k.own j c (get-remove-some id j c m.contexts found).1;
    bounded = omega (arith, k.bounded, length-remove-le id m.contexts);
  }

  new_manager-IsKeyed :
      (maximum : ℕ) (m : ForwardingManager PeerId) → new_manager lib maximum ≡ ok m → IsKeyed m
  unfolding new_manager
  new_manager-IsKeyed maximum m h =
      let empty : m.contexts ≡ [] = ground arith in
      record {
        unique = rw empty tt;
        own = λ id c found. absurd (get-empty id c m.contexts empty found);
        bounded = rw empty (omega arith);
      }

  run-keeps_IsKeyed :
      (ops : List (Op PeerId)) (m : ForwardingManager PeerId) → IsKeyed m → IsKeyed (run ops m)
  unfolding run apply
  run-keeps_IsKeyed [] m k = k
  run-keeps_IsKeyed (admit_it c ∷ ops) m k =
      run-keeps_IsKeyed ops (admit_flow lib c m).0 (admit_flow-IsKeyed c m k)
  run-keeps_IsKeyed (remove_it id ∷ ops) m k =
      run-keeps_IsKeyed ops (remove_flow lib id m) (remove_flow-IsKeyed id m k)

  -- Whatever is admitted to and removed from a new manager, every context stands once, under its own
  -- identifier, and there are no more than allowed.
  run-IsKeyed :
      (maximum : ℕ) (m : ForwardingManager PeerId) (ops : List (Op PeerId))
      → new_manager lib maximum ≡ ok m
      → IsKeyed (run ops m)
  run-IsKeyed maximum m ops h = run-keeps_IsKeyed ops m (new_manager-IsKeyed maximum m h)

  -- The manager takes a message for a context exactly when that context stands under the message's
  -- identifier and the message is one of its circuit.
  pub validate_flow_iff :
      (message : ForwardingMessage PeerId) (m : ForwardingManager PeerId)
      (c : ForwardingContext PeerId)
      → (validate_flow lib message m ≡ ok c)
        ↔ ((get message.forwarding_id m.contexts ≡ some c) × Matches lib message c)
  unfolding validate_flow
  validate_flow_iff message m c = elim (Option-cases (get message.forwarding_id m.contexts)) [
    | inl missing ↦ (λ h. absurd (ground arith), λ x. absurd (ground (arith, x.0)))
    | inr (d, there) ↦ elim (Result-cases (validate_message lib message d)) [
      | inr (x, refused) ↦ (
        λ h. absurd (ground arith),
        λ (found, good).
            let same : d ≡ c = ground arith in
            absurd (ground (arith, (validate_message_iff lib message d).1 (rw same good))),
      )
      | inl (u, passed) ↦ (
        λ h.
            let same : d ≡ c = ground arith in
            (ground arith, rw (← same) ((validate_message_iff lib message d).0 (ground arith))),
        λ (found, good). ground arith,
      )
    ]
  ]
