-- ===== src/Network/ReturnPath.antt =====
-- network/src/return_path.rs: packets that wait for an answer. A method takes the values that it
-- reads from `Instant::now()`, one for its `cleanup` and a later one for a new lifetime.
pub mod Bounds
pub mod Expiry
use real_layer.Base.{
  ℕ, ◌+◌, ◌≡◌, ◌↔◌, Bool, true, ◌&&◌, ◌||◌, not, [], Result, ok, err, ◌>>=◌, ◌>>◌, ensure, ok_or,
  arith, Eq, ◌==◌, nat_eq, list_eq, list_beq_iff, ltb, leb, length, if◌then◌else◌,
}
use real_layer.Base.Map.{Map, get, insert, remove, contains_key, retain}
use real_layer.Network.Session.Types.{SessionId}

pub record ReturnPathKey (P : Type 0) : Type 0 where
  pub session_id : SessionId
  pub packet_id : SessionId
  pub source_identity : P
  pub entry_peer : P
  pub exit_peer : P

pub record ReturnPathMapping (P : Type 0) : Type 0 where
  pub key : ReturnPathKey P
  pub expires_at : ℕ

pub data ReturnPathError : Type 0 where
  capacity duplicate unknown binding_mismatch replayed invalid_lifetime : ReturnPathError

pub record ReturnPathTable (P : Type 0) : Type 0 where
  pub entries : Map SessionId (ReturnPathMapping P)
  pub consumed : Map SessionId ℕ
  pub maximum : ℕ
  pub lifetime : ℕ

module _ {P : Type 0} ⦃e : Eq P⦄ where
  abbrev pub path_beq : ReturnPathKey P → ReturnPathKey P → Bool
  path_beq a b =
      a.session_id == b.session_id
      && a.packet_id == b.packet_id
      && a.source_identity == b.source_identity
      && a.entry_peer == b.entry_peer
      && a.exit_peer == b.exit_peer

  pub path_beq_iff : (a b : ReturnPathKey P) → (path_beq a b ≡ true) ↔ (a ≡ b)
  path_beq_iff a b = ground (
    arith,
    list_beq_iff a.session_id b.session_id,
    list_beq_iff a.packet_id b.packet_id,
    e.beq_iff a.source_identity b.source_identity,
    e.beq_iff a.entry_peer b.entry_peer,
    e.beq_iff a.exit_peer b.exit_peer,
  )

  instance abbrev pub path_eq : Eq (ReturnPathKey P)
  path_eq = record { beq = path_beq; beq_iff = path_beq_iff }

  unfoldable pub new_table : (maximum lifetime : ℕ) → Result ReturnPathError (ReturnPathTable P)
  new_table maximum lifetime =
      if maximum == 0 || lifetime == 0
      then err invalid_lifetime
      else ok (record { entries = []; consumed = []; maximum = maximum; lifetime = lifetime })

  abbrev pub is_waiting : ℕ → ReturnPathMapping P → Bool
  is_waiting now m = ltb now m.expires_at

  unfoldable pub expire : ℕ → ReturnPathTable P → ReturnPathTable P
  expire now t = record t {
    entries = retain (is_waiting now) t.entries;
    consumed = retain (ltb now) t.consumed;
  }

  unfoldable pub register :
      (now later : ℕ)
      → ReturnPathKey P
      → ReturnPathTable P
      → ReturnPathTable P × Result ReturnPathError (Unit {0})
  register now later key table =
      let t = expire now table in
      if contains_key key.packet_id t.entries || contains_key key.packet_id t.consumed
      then (t, err duplicate)
      else if leb t.maximum (length t.entries)
      then (t, err capacity)
      else (
        record t {
          entries =
              insert key.packet_id (record { key = key; expires_at = later + t.lifetime })
                t.entries;
        },
        ok tt,
      )

  -- The lookup in a table that has been cleaned up.
  unfoldable pub find :
      SessionId → ReturnPathKey P → ReturnPathTable P → Result ReturnPathError (ReturnPathMapping P)
  find packet_id expected t = do
    mapping ←
        ok_or (get packet_id t.entries)
          (if contains_key packet_id t.consumed then replayed else unknown)
    ensure (mapping.key == expected) binding_mismatch
    ok mapping

  unfoldable pub lookup :
      ℕ
      → SessionId
      → ReturnPathKey P
      → ReturnPathTable P
      → ReturnPathTable P × Result ReturnPathError (ReturnPathMapping P)
  unfolding find
  lookup now packet_id expected table = let t = expire now table in (t, find packet_id expected t)

  -- The end of `consume`, after the lookup.
  unfoldable pub spend :
      (later : ℕ)
      → SessionId
      → ReturnPathTable P × Result ReturnPathError (ReturnPathMapping P)
      → ReturnPathTable P × Result ReturnPathError (ReturnPathMapping P)
  spend later packet_id (t, err x) = (t, err x)
  spend later packet_id (t, ok mapping) = (
    record t {
      entries = remove packet_id t.entries;
      consumed = insert packet_id (later + t.lifetime) t.consumed;
    },
    ok mapping,
  )

  unfoldable pub consume :
      (now later : ℕ)
      → SessionId
      → ReturnPathKey P
      → ReturnPathTable P
      → ReturnPathTable P × Result ReturnPathError (ReturnPathMapping P)
  unfolding lookup
  consume now later packet_id expected table =
      spend later packet_id (lookup now packet_id expected table)

  abbrev pub not_of : SessionId → ReturnPathMapping P → Bool
  not_of id m = not (m.key.session_id == id)

  unfoldable pub drop_session : SessionId → ReturnPathTable P → ReturnPathTable P
  drop_session id t = record t { entries = retain (not_of id) t.entries }
