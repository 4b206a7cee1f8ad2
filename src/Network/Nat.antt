-- ===== src/Network/Nat.antt =====
-- network/src/nat.rs: the table of address translations.
-- `Maps` has the pair of maps and what keeps them inverse to each other, over any keys; here are
-- `FlowKey`, `NatMapping` and the methods of `NatTable`. A method takes the values that it reads
-- from `Instant::now()`: one for its `cleanup`, and `create` another for the lifetime. Instants and
-- durations are numbers of ticks.
pub mod Maps
pub mod Sweep
pub mod Ports
pub mod Invariant
pub mod RoundTrip
use real_layer.Base.Bytes.{Bytes}
use real_layer.Base.{
  ℕ, suc, zero, ◌+◌, ◌≡◌, ◌↔◌, Bool, ◌&&◌, ◌||◌, true, [], ensure, ok_or, ◌>>=◌, ◌>>◌, ◌-◌, Option,
  none, some, Result, ok, err, arith, Eq, ◌==◌, nat_eq, list_eq, list_beq_iff, leb, length,
  if◌then◌else◌,
}
use real_layer.Base.Map.{Map, get, insert, remove, contains_key}
use real_layer.Network.Session.Types.{SessionId}
use real_layer.Network.Address.{IpAddr, SocketAddr, socket_eq, socket_beq_iff}
use Maps.{Tables, forget_all}
use Sweep.{entries_where, keys_where, forget_keys}

pub record FlowKey (P : Type 0) : Type 0 where
  pub flow_id : SessionId
  pub source : SocketAddr
  pub destination : SocketAddr
  pub session_id : SessionId
  pub source_identity : P
  pub entry_peer : P
  pub exit_peer : P
  pub protocol : ℕ

pub record NatMapping (P : Type 0) : Type 0 where
  pub flow_id : SessionId
  pub source : SocketAddr
  pub destination : SocketAddr
  pub translated : SocketAddr
  pub session_id : SessionId
  pub source_identity : P
  pub entry_peer : P
  pub exit_peer : P
  pub protocol : ℕ
  pub expires_at : ℕ

pub data NatError : Type 0 where
  capacity duplicate unknown_mapping binding_mismatch port_exhausted invalid_lifetime : NatError

-- `HashMap<FlowKey, NatMapping>` and `HashMap<SocketAddr, FlowKey>`, with the other fields.
pub record NatTable (P : Type 0) : Type 0 where
  pub tables : Tables (FlowKey P) (NatMapping P) SocketAddr
  pub open tables use *
  pub maximum_mappings : ℕ
  pub lifetime : ℕ
  pub next_port : ℕ
  pub translated_address : IpAddr

abbrev pub first_port : ℕ
first_port = 40000

abbrev pub last_port : ℕ
last_port = 65535

-- The number of rounds of `for _ in 0..=u16::MAX - 40000`.
unfoldable pub port_count : ℕ
port_count = last_port - first_port + 1

module _ {P : Type 0} ⦃e : Eq P⦄ where
  abbrev pub flow_beq : FlowKey P → FlowKey P → Bool
  flow_beq a b =
      a.flow_id == b.flow_id
      && a.source == b.source
      && a.destination == b.destination
      && a.session_id == b.session_id
      && a.source_identity == b.source_identity
      && a.entry_peer == b.entry_peer
      && a.exit_peer == b.exit_peer
      && a.protocol == b.protocol

  pub flow_beq_iff : (a b : FlowKey P) → (flow_beq a b ≡ true) ↔ (a ≡ b)
  flow_beq_iff a b = ground (
    arith,
    list_beq_iff a.flow_id b.flow_id,
    socket_beq_iff a.source b.source,
    socket_beq_iff a.destination b.destination,
    list_beq_iff a.session_id b.session_id,
    e.beq_iff a.source_identity b.source_identity,
    e.beq_iff a.entry_peer b.entry_peer,
    e.beq_iff a.exit_peer b.exit_peer,
  )

  instance abbrev pub flow_eq : Eq (FlowKey P)
  flow_eq = record { beq = flow_beq; beq_iff = flow_beq_iff }

  abbrev pub translated_of : NatMapping P → SocketAddr
  translated_of m = m.translated

  abbrev pub is_expired : ℕ → FlowKey P → NatMapping P → Bool
  is_expired now k m = leb m.expires_at now

  abbrev pub in_session : SessionId → FlowKey P → NatMapping P → Bool
  in_session id k m = k.session_id == id

  unfoldable pub new : IpAddr → (maximum_mappings lifetime : ℕ) → Result NatError (NatTable P)
  new translated_address maximum_mappings lifetime =
      if maximum_mappings == 0 || lifetime == 0
      then err invalid_lifetime
      else ok (record {
        tables = record { mappings = []; reverse = [] };
        maximum_mappings = maximum_mappings;
        lifetime = lifetime;
        next_port = first_port;
        translated_address = translated_address;
      })

  unfoldable pub cleanup : ℕ → NatTable P → NatTable P
  cleanup now t = record t {
    tables = forget_all (entries_where translated_of (is_expired now) t.mappings) t.tables;
  }

  -- `allocate_port` with the rounds that are left.
  unfoldable pub search_port : ℕ → NatTable P → NatTable P × Result NatError SocketAddr
  search_port zero t = (t, err port_exhausted)
  search_port (suc rounds) t =
      let candidate : SocketAddr = record { ip = t.translated_address; port = t.next_port } in
      let t' : NatTable P = record t {
        next_port = if t.next_port == last_port then first_port else t.next_port + 1;
      } in
      let rest = search_port rounds t' in
      if contains_key candidate t.reverse then rest else (t', ok candidate)

  unfoldable pub allocate_port : NatTable P → NatTable P × Result NatError SocketAddr
  allocate_port t = search_port port_count t

  abbrev pub mapping_for : FlowKey P → SocketAddr → (expires_at : ℕ) → NatMapping P
  mapping_for key translated expires_at = record {
    flow_id = key.flow_id;
    source = key.source;
    destination = key.destination;
    translated = translated;
    session_id = key.session_id;
    source_identity = key.source_identity;
    entry_peer = key.entry_peer;
    exit_peer = key.exit_peer;
    protocol = key.protocol;
    expires_at = expires_at;
  }

  -- The end of `create`, after the allocation.
  unfoldable pub add_mapping :
      FlowKey P
      → (now : ℕ) → NatTable P × Result NatError SocketAddr
      → NatTable P × Result NatError (NatMapping P)
  add_mapping key now (t, err e) = (t, err e)
  add_mapping key now (t, ok translated) =
      let mapping = mapping_for key translated (now + t.lifetime) in
      (
        record t {
          tables = record {
            mappings = insert key mapping t.mappings;
            reverse = insert translated key t.reverse;
          };
        },
        ok mapping,
      )

  unfoldable pub create :
      (now later : ℕ) → FlowKey P → NatTable P → NatTable P × Result NatError (NatMapping P)
  unfolding add_mapping
  create now later key table =
      let t = cleanup now table in
      if contains_key key t.mappings
      then (t, err duplicate)
      else if leb t.maximum_mappings (length t.mappings)
      then (t, err capacity)
      else add_mapping key later (allocate_port t)

  unfoldable pub lookup_forward : ℕ → FlowKey P → NatTable P → NatTable P × Option (NatMapping P)
  lookup_forward now key table = let t = cleanup now table in (t, get key t.mappings)

  -- The lookup in a table that has been cleaned up.
  unfoldable pub find_reverse : SocketAddr → FlowKey P → NatTable P → Result NatError (NatMapping P)
  find_reverse translated expected t = do
    key ← ok_or (get translated t.reverse) unknown_mapping
    ensure (key == expected) binding_mismatch
    ok_or (get key t.mappings) unknown_mapping

  unfoldable pub lookup_reverse :
      ℕ → SocketAddr → FlowKey P → NatTable P → NatTable P × Result NatError (NatMapping P)
  unfolding find_reverse
  lookup_reverse now translated expected table =
      let t = cleanup now table in (t, find_reverse translated expected t)

  unfoldable pub remove_session : SessionId → NatTable P → NatTable P
  remove_session id t = record t {
    tables =
        forget_keys translated_of (in_session id)
          (keys_where translated_of (in_session id) t.mappings) t.tables;
  }

  unfoldable pub len : NatTable P → ℕ
  len t = length t.mappings
