-- ===== src/Relay/Candidates/Eligibility.antt =====
-- `RelayCandidate::from_metadata`: which advertisements make a candidate.
use real_layer.Base.{
  ℕ, zero, suc, ap, Among, get_elem?, ◌-◌, ◌≤◌, ◌≡◌, ◌≢◌, not, String, List, [], ◌∷◌, Option, none,
  some, ok, arith, ◌==◌, string_eq, true, false, any, All, All-weaken, Option-cases, Bool-cases,
  Result-cases, inl, inr, Bool,
}
use text.Mathlib.TextEquality.{eq_iff}
use real_layer.Network.Session.Primitives.{Primitives}
use real_layer.Relay.State.{offline, status_eq}
use real_layer.Relay.Candidates.{
  Addresses, RelayMetadata, RelayCandidate, CandidateRequirements, validate, from_metadata,
  candidate_of, member, find_missing, refuse_missing, duration_since, is_stale, address_text,
  known_capabilities,
}

-- What a candidate's advertisement promises.
pub record IsOffer {P : Type 0} (m : RelayMetadata P) (r : CandidateRequirements) (now : ℕ)
    : Type 0 where
  pub protocol : m.protocol_version ≡ r.protocol_version
  pub past : m.timestamp ≤ now
  pub fresh : now - m.timestamp ≤ r.heartbeat_freshness
  pub alive : (t : ℕ) → m.last_heartbeat ≡ some t → (t ≤ now) × (now - t ≤ r.heartbeat_freshness)
  pub reachable : m.status ≢ offline
  pub transports : All (λ t. t ≡ "quic") m.supported_transports
  pub transport : Among r.required_transport m.supported_transports
  pub known : All (λ c. Among c known_capabilities) m.capabilities
  pub capable : All (λ c. Among c m.capabilities) r.required_capabilities

any-false-All :
    {A : Type 0} (p : A → Bool) (xs : List A) → any p xs ≡ false → All (λ x. p x ≡ false) xs
any-false-All p [] h = tt
any-false-All p (x ∷ xs) h = (ground arith, any-false-All p xs (ground arith))

pub member-Among : (x : String) (xs : List String) → member x xs ≡ true → Among x xs
member-Among x [] h = absurd (ground arith)
member-Among x (y ∷ ys) h = elim (Bool-cases (y == x)) [
  | inl same ↦ (0, ap some ((eq_iff y x).0 same))
  | inr other ↦ let rest = member-Among x ys (ground arith) in (suc (rest.0), rest.1)
]

pub Among-member :
    (x : String) (xs : List String) (i : ℕ) → get_elem? xs i ≡ some x → member x xs ≡ true
Among-member x [] i h = absurd (ground arith)
Among-member x (y ∷ ys) zero h = ground (arith, eq_iff y x)
Among-member x (y ∷ ys) (suc i) h = ground (arith, Among-member x ys i h)

find_missing-none :
    (required offered : List String)
    → find_missing required offered ≡ none
    → All (λ c. Among c offered) required
unfolding find_missing
find_missing-none [] offered h = tt
find_missing-none (c ∷ cs) offered h =
    (member-Among c offered (ground arith), find_missing-none cs offered (ground arith))

not_quic : (t : String) → not (t == "quic") ≡ false → t ≡ "quic"
not_quic t h = ground (arith, eq_iff t "quic")

unknown_no : (c : String) → not (member c known_capabilities) ≡ false → Among c known_capabilities
unknown_no c h = member-Among c known_capabilities (ground arith)

is_stale-false :
    (last : Option ℕ) (now freshness : ℕ)
    → is_stale last now freshness ≡ false
    → (t : ℕ) → last ≡ some t
    → (t ≤ now) × (now - t ≤ freshness)
unfolding is_stale duration_since
is_stale-false last now freshness h t e = (ground arith, ground arith)

module _ (lib : Primitives) (addresses : Addresses) where
  open lib use {PeerId}
  open addresses use {Multiaddr}

  -- What `validate` has checked.
  record IsValid (expected : String) (now freshness : ℕ) (m : RelayMetadata PeerId) : Type 0 where
    pub protocol : m.protocol_version ≡ expected
    pub past : m.timestamp ≤ now
    pub fresh : now - m.timestamp ≤ freshness
    pub alive : is_stale m.last_heartbeat now freshness ≡ false
    pub transports : any (λ transport. not (transport == "quic")) m.supported_transports ≡ false
    pub known : any (λ c. not (member c known_capabilities)) m.capabilities ≡ false

  validate-IsValid :
      (expected : String) (now freshness : ℕ) (m : RelayMetadata PeerId)
      → validate lib addresses expected now freshness m ≡ ok tt
      → IsValid expected now freshness m
  unfolding validate duration_since
  validate-IsValid expected now freshness m h = elim (Option-cases (address_text m)) [
    | inl none_there ↦ absurd (ground arith)
    | inr (text, e) ↦ elim (Option-cases (addresses.parse text)) [
      | inl bad ↦ absurd (ground arith)
      | inr (a, parsed) ↦ record {
        protocol = ground (arith, eq_iff m.protocol_version expected);
        past = ground arith;
        fresh = ground arith;
        alive = ground arith;
        transports = ground arith;
        known = ground arith;
      }
    ]
  ]

  -- A candidate is made only of an advertisement that has the required protocol version, lists the
  -- required transport and every required capability, names no transport but QUIC and no capability
  -- that is not known, and whose timestamp and heartbeat are neither in the future nor too old, from a
  -- relay that is not offline; it carries the advertisement's values and its parsed address.
  pub from_metadata-IsOffer :
      (m : RelayMetadata PeerId) (r : CandidateRequirements) (now : ℕ)
      (c : RelayCandidate PeerId Multiaddr)
      → from_metadata lib addresses m r now ≡ ok c
      → IsOffer m r now
        × ((text : String) × (a : Multiaddr) × (address_text m ≡ some text)
            × (addresses.parse text ≡ some a)
            × (c ≡ candidate_of lib addresses m a))
  unfolding from_metadata
  from_metadata-IsOffer m r now c h =
      elim (Result-cases (validate lib addresses r.protocol_version now r.heartbeat_freshness m)) [
        | inr (x, e) ↦ absurd (ground arith)
        | inl (u, checked) ↦ elim (Option-cases (address_text m)) [
          | inl e ↦ absurd (ground arith)
          | inr (text, e) ↦ elim (Option-cases (addresses.parse text)) [
            | inl bad ↦ absurd (ground arith)
            | inr (a, parsed) ↦
                elim (Option-cases (find_missing r.required_capabilities m.capabilities)) [
                  | inr (missing, e₃) ↦ unfold refuse_missing in absurd (ground arith)
                  | inl e₃ ↦
                      unfold refuse_missing in
                      (
                        offer
                            (validate-IsValid r.protocol_version now r.heartbeat_freshness m
                              checked)
                            (λ gone. ground arith) (ground arith) e₃,
                        (text, a, e, parsed, ground arith),
                      )
                ]
          ]
        ]
      ]
    where
      offer :
          IsValid r.protocol_version now r.heartbeat_freshness m
          → m.status ≢ offline
          → member r.required_transport m.supported_transports ≡ true
          → find_missing r.required_capabilities m.capabilities ≡ none
          → IsOffer m r now
      offer v there transport complete =
          let quic =
            All-weaken not_quic m.supported_transports
              (any-false-All (λ t. not (t == "quic")) m.supported_transports v.transports) in
          record {
            protocol = v.protocol;
            past = v.past;
            fresh = v.fresh;
            alive = is_stale-false m.last_heartbeat now r.heartbeat_freshness v.alive;
            reachable = there;
            transports = quic;
            transport = member-Among r.required_transport m.supported_transports transport;
            known =
                All-weaken unknown_no m.capabilities
                  (any-false-All (λ t. not (member t known_capabilities)) m.capabilities v.known);
            capable = find_missing-none r.required_capabilities m.capabilities complete;
          }
