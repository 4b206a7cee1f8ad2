-- ===== src/Relay/RouteSelection/Eligibility.antt =====
-- The filters of `RouteSelector::select`, told by what they let through.
use real_layer.Base.{
  ◌≡◌, ◌≢◌, ◌↔◌, refl, ap, ◌++◌, String, List, [], ◌∷◌, true, arith, All, Among, Bool-cases, inl,
  inr, nat_eq, string_eq, nat_beq_iff, all,
}
use real_layer.Base.Bytes.{Bytes}
use real_layer.Base.Text.{as_bytes}
use real_layer.Network.Session.Primitives.{Primitives}
use real_layer.Relay.State.{
  HealthClass, healthy, degraded_health, unhealthy, online, status_eq, status_beq_iff,
}
use real_layer.Relay.Candidates.{Addresses, member}
use real_layer.Relay.Candidates.Eligibility.{member-Among, Among-member}
use real_layer.Relay.RouteSelection.{
  RouteSelectionPolicy, is_healthy, starts_with, contains_bytes, is_eligible, Candidate, peers,
}

-- A text that has the pattern inside it.
abbrev Contains : Bytes → Bytes → Type 0
Contains pattern text = (before : Bytes) × (after : Bytes) × (text ≡ before ++ pattern ++ after)

is_healthy_iff : (h : HealthClass) → (is_healthy h ≡ true) ↔ (h ≡ healthy)
is_healthy_iff healthy = (λ e. refl, λ e. refl)
is_healthy_iff degraded_health = (λ e. absurd (ground arith), λ e. absurd (ground arith))
is_healthy_iff unhealthy = (λ e. absurd (ground arith), λ e. absurd (ground arith))

starts_with-true :
    (p text : Bytes) → starts_with p text ≡ true → (after : Bytes) × (text ≡ p ++ after)
unfolding starts_with
starts_with-true [] text h = (text, refl)
starts_with-true (x ∷ p) [] h = absurd (ground arith)
starts_with-true (x ∷ p) (b ∷ bs) h =
    let rest = starts_with-true p bs (ground arith) in
    (rest.0, ground (arith, rest.1, nat_beq_iff x b))

starts_with-append : (p after : Bytes) → starts_with p (p ++ after) ≡ true
unfolding starts_with
starts_with-append [] after = refl
starts_with-append (x ∷ p) after = ground (arith, starts_with-append p after, nat_beq_iff x x)

contains_bytes-true : (p text : Bytes) → contains_bytes p text ≡ true → Contains p text
unfolding contains_bytes
contains_bytes-true p [] h = let s = starts_with-true p [] h in ([], s.0, s.1)
contains_bytes-true p (b ∷ bs) h = elim (Bool-cases (starts_with p (b ∷ bs))) [
  | inl here ↦ let s = starts_with-true p (b ∷ bs) here in ([], s.0, s.1)
  | inr later ↦
      let rest = contains_bytes-true p bs (ground arith) in
      (b ∷ rest.0, rest.1, ap (λ l. b ∷ l) rest.2)
]

starts_with-contains : (p text : Bytes) → starts_with p text ≡ true → contains_bytes p text ≡ true
unfolding contains_bytes
starts_with-contains p [] h = h
starts_with-contains p (b ∷ bs) h = ground arith

contains_bytes-append : (before p after : Bytes) → contains_bytes p (before ++ p ++ after) ≡ true
unfolding contains_bytes
contains_bytes-append [] p after = starts_with-contains p (p ++ after) (starts_with-append p after)
contains_bytes-append (b ∷ before) p after = ground (arith, contains_bytes-append before p after)

all_iff :
    (xs offered : List String)
    → (all (λ x. member x offered) xs ≡ true) ↔ All (λ x. Among x offered) xs
all_iff [] offered = (λ h. tt, λ h. refl)
all_iff (x ∷ xs) offered = (
  λ h. (member-Among x offered (ground arith), (all_iff xs offered).0 (ground arith)),
  λ h. ground (arith, Among-member x offered h.0.0 h.0.1, (all_iff xs offered).1 h.1),
)

module _ (lib : Primitives) (addresses : Addresses) where
  open lib use {PeerId}

  -- A healthy online relay, not the client, that speaks QUIC and has all that the policy requires.
  pub record IsEligible (client : PeerId) (policy : RouteSelectionPolicy)
      (c : Candidate lib addresses) : Type 0 where
    pub other : c.peer_id ≢ client
    pub status : c.status ≡ online
    pub health : c.health ≡ healthy
    pub quic : Contains (as_bytes "/quic-v1") (as_bytes (addresses.to_string c.address))
    pub transport : Among policy.required_transport c.capabilities
    pub capable : All (λ r. Among r c.capabilities) policy.required_capabilities

  pub is_eligible_iff :
      (client : PeerId) (policy : RouteSelectionPolicy) (c : Candidate lib addresses)
      → (is_eligible lib addresses client policy c ≡ true) ↔ IsEligible client policy c
  unfolding is_eligible
  is_eligible_iff client policy c = (
    λ h. record {
      other = λ e. ground (arith, lib.peer_eq.beq_iff c.peer_id client);
      status = (status_beq_iff c.status online).0 (ground arith);
      health = (is_healthy_iff c.health).0 (ground arith);
      quic =
          contains_bytes-true (as_bytes "/quic-v1") (as_bytes (addresses.to_string c.address))
            (ground arith);
      transport = member-Among policy.required_transport c.capabilities (ground arith);
      capable = (all_iff policy.required_capabilities c.capabilities).0 (ground arith);
    },
    λ e.
        let quic : contains_bytes (as_bytes "/quic-v1") (as_bytes (addresses.to_string c.address))
            ≡ true =
          rw e.quic.2 (contains_bytes-append e.quic.0 (as_bytes "/quic-v1") e.quic.1) in
        ground (
          arith,
          e.other,
          lib.peer_eq.beq_iff c.peer_id client,
          (status_beq_iff c.status online).1 e.status,
          (is_healthy_iff c.health).1 e.health,
          quic,
          Among-member policy.required_transport c.capabilities e.transport.0 e.transport.1,
          (all_iff policy.required_capabilities c.capabilities).1 e.capable,
        ),
  )
