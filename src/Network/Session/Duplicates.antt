-- ===== src/Network/Session/Duplicates.antt =====
-- What a `SessionResponder` of network/src/session.rs remembers over its calls.
use real_layer.Base.{
  String, List, [], ◌∷◌, ◌≡◌, inl, inr, true, Result, ok, err, ==_refl, or_true, list_eq,
  Result-cases,
}
use real_layer.Network.Session.Types.{
  SessionId, SessionError, duplicate_session, HandshakeInit, HandshakeResponse, SecureSession,
}
use real_layer.Network.Session.Primitives.{Primitives}
use real_layer.Network.Session.Handshake.{SessionResponder, is_seen, admit, accept_init}
use real_layer.Network.Session.Authentication.{accept_init-ok}

module _ (lib : Primitives) where
  open lib use {PeerId, StaticSecret}

  -- One call of `accept_init`.
  pub record Call : Type 0 where
    pub init : HandshakeInit PeerId
    pub transport_peer : PeerId
    pub protocol : String
    pub secret : StaticSecret

  abbrev pub accept :
      SessionResponder lib
      → Call
      → SessionResponder lib × Result SessionError (HandshakeResponse PeerId × SecureSession PeerId)
  accept r c = accept_init lib r c.init c.transport_peer c.protocol c.secret

  unfoldable pub after : SessionResponder lib → List Call → SessionResponder lib
  after r [] = r
  after r (c ∷ cs) = after (accept r c).0 cs

  abbrev pub Knows : SessionResponder lib → SessionId → Type 0
  Knows r id = is_seen lib id r.seen_sessions ≡ true

  accept-Knows :
      (r : SessionResponder lib) (c : Call) (id : SessionId) → Knows r id → Knows (accept r c).0 id
  unfolding accept_init is_seen
  accept-Knows r c id h = elim (Result-cases (admit lib r c.init c.transport_peer c.protocol)) [
    | inl (u, e) ↦ rw (e, accept_init) (or_true _ _ h)
    | inr (x, e) ↦ rw (e, accept_init) h
  ]

  after-Knows :
      (r : SessionResponder lib) (cs : List Call) (id : SessionId)
      → Knows r id
      → Knows (after r cs) id
  unfolding after
  after-Knows r [] id h = h
  after-Knows r (c ∷ cs) id h = after-Knows (accept r c).0 cs id (accept-Knows r c id h)

  accept-duplicate :
      (r : SessionResponder lib) (c : Call)
      → Knows r c.init.session_id
      → accept r c ≡ (r, err duplicate_session)
  unfolding accept_init admit
  accept-duplicate r c h = rw (h, accept_init)

  accepted-Knows :
      (r r' : SessionResponder lib) (c : Call)
      (result : HandshakeResponse PeerId × SecureSession PeerId)
      → accept r c ≡ (r', ok result)
      → Knows r' c.init.session_id
  unfolding is_seen
  accepted-Knows r r' c result h =
      let (_, _, e) =
        accept_init-ok lib r r' c.init c.transport_peer c.protocol c.secret result h in
      rw (e, ==_refl {A = SessionId})

  -- After a responder accepted a message, and whatever messages came since, it refuses every message
  -- with the same session id, from whatever peer, as a duplicate, and stays as it is.
  pub accept_init_once :
      (r r' : SessionResponder lib) (c : Call) (since : List Call) (again : Call)
      (result : HandshakeResponse PeerId × SecureSession PeerId)
      → accept r c ≡ (r', ok result)
      → again.init.session_id ≡ c.init.session_id
      → accept (after r' since) again ≡ (after r' since, err duplicate_session)
  accept_init_once r r' c since again result h same =
      accept-duplicate (after r' since) again
        (rw same (after-Knows r' since c.init.session_id (accepted-Knows r r' c result h)))
