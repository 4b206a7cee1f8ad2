-- ===== src/Relay/Candidates/Precedence.antt =====
-- The order of candidates, told without ranks: health, then status, latency, age and name.
use Prim.Native.Nat.{compare, Ordering}
use real_layer.Base.Bytes.{Bytes}
use real_layer.Base.Text.{as_bytes}
use real_layer.Base.{
  ℕ, ◌≡◌, ◌≢◌, ◌<◌, ◌≤◌, ◌↔◌, ◌⊎◌, inl, inr, refl, [], ◌∷◌, Option, some, none, arith,
}
use real_layer.Network.Session.Primitives.{Primitives}
use real_layer.Relay.State.{
  HealthClass, healthy, degraded_health, unhealthy, RelayStatus, online, status_eq, status_beq_iff,
}
use real_layer.Relay.Candidates.{
  Addresses, RelayCandidate, duration_max, then_with, compare_bytes, compare_candidates,
  health_rank, status_rank, latency_rank, freshness_rank, duration_since,
}

pub data Healthier : HealthClass → HealthClass → Type 0 where
  over_degraded : Healthier healthy degraded_health
  over_unhealthy : Healthier healthy unhealthy
  less_ill : Healthier degraded_health unhealthy

-- A missing latency counts as `Duration::from_secs(u64::MAX)`.
abbrev pub Quicker : Option ℕ → Option ℕ → Type 0
Quicker (some a) (some b) = a < b
Quicker (some a) none = a < duration_max
Quicker none (some b) = duration_max < b
Quicker none none = ⊥

abbrev pub NoSlower : Option ℕ → Option ℕ → Type 0
NoSlower (some a) (some b) = a ≤ b
NoSlower (some a) none = a ≤ duration_max
NoSlower none (some b) = duration_max ≤ b
NoSlower none none = Unit

abbrev pub AsQuick : Option ℕ → Option ℕ → Type 0
AsQuick a b = NoSlower a b × NoSlower b a

-- Seen longer ago; an instant in the future counts as longest ago.
abbrev pub Older : (now a b : ℕ) → Type 0
Older now a b = (b ≤ now) × ((a < b) ⊎ (now < a))

abbrev pub AsOld : (now a b : ℕ) → Type 0
AsOld now a b = (a ≡ b) ⊎ ((now < a) × (now < b))

-- The order of a dictionary.
abbrev pub NoLater : Bytes → Bytes → Type 0
NoLater [] ys = Unit
NoLater (x ∷ xs) [] = ⊥
NoLater (x ∷ xs) (y ∷ ys) = (x < y) ⊎ ((x ≡ y) × NoLater xs ys)

then_with-split :
    (m n : ℕ) (o : Ordering)
    → then_with (compare m n) o ≢ Ordering.gt
    → (m < n) ⊎ ((m ≡ n) × (o ≢ Ordering.gt))
unfolding then_with
then_with-split m n o h = ground (arith, h)

health_rank-lt : (a b : HealthClass) → health_rank b < health_rank a → Healthier a b
unfolding health_rank
health_rank-lt healthy healthy h = absurd (omega arith)
health_rank-lt healthy degraded_health h = over_degraded
health_rank-lt healthy unhealthy h = over_unhealthy
health_rank-lt degraded_health healthy h = absurd (omega arith)
health_rank-lt degraded_health degraded_health h = absurd (omega arith)
health_rank-lt degraded_health unhealthy h = less_ill
health_rank-lt unhealthy healthy h = absurd (omega arith)
health_rank-lt unhealthy degraded_health h = absurd (omega arith)
health_rank-lt unhealthy unhealthy h = absurd (omega arith)

health_rank-eq : (a b : HealthClass) → health_rank b ≡ health_rank a → a ≡ b
unfolding health_rank
health_rank-eq healthy healthy h = refl
health_rank-eq healthy degraded_health h = absurd (omega arith)
health_rank-eq healthy unhealthy h = absurd (omega arith)
health_rank-eq degraded_health healthy h = absurd (omega arith)
health_rank-eq degraded_health degraded_health h = refl
health_rank-eq degraded_health unhealthy h = absurd (omega arith)
health_rank-eq unhealthy healthy h = absurd (omega arith)
health_rank-eq unhealthy degraded_health h = absurd (omega arith)
health_rank-eq unhealthy unhealthy h = refl

status_rank-lt : (a b : RelayStatus) → status_rank b < status_rank a → (a ≡ online) × (b ≢ online)
unfolding status_rank
status_rank-lt a b h = ground (arith, status_beq_iff a online, status_beq_iff b online)

status_rank-eq : (a b : RelayStatus) → status_rank b ≡ status_rank a → (a ≡ online) ↔ (b ≡ online)
unfolding status_rank
status_rank-eq a b h = ground (arith, status_beq_iff a online, status_beq_iff b online)

latency_rank-lt : (a b : Option ℕ) → latency_rank a < latency_rank b → Quicker a b
unfolding latency_rank
latency_rank-lt (some a) (some b) h = h
latency_rank-lt (some a) none h = h
latency_rank-lt none (some b) h = h
latency_rank-lt none none h = absurd (omega arith)

latency_rank-le : (a b : Option ℕ) → latency_rank a ≤ latency_rank b → NoSlower a b
unfolding latency_rank
latency_rank-le (some a) (some b) h = h
latency_rank-le (some a) none h = h
latency_rank-le none (some b) h = h
latency_rank-le none none h = tt

freshness_rank-lt :
    (now a b : ℕ) → now < duration_max → freshness_rank b now < freshness_rank a now → Older now a b
unfolding freshness_rank duration_since
freshness_rank-lt now a b small h = ground (arith, small, h)

freshness_rank-eq :
    (now a b : ℕ) → now < duration_max → freshness_rank b now ≡ freshness_rank a now → AsOld now a b
unfolding freshness_rank duration_since
freshness_rank-eq now a b small h = ground (arith, small, h)

compare_bytes-NoLater : (xs ys : Bytes) → compare_bytes xs ys ≢ Ordering.gt → NoLater xs ys
unfolding compare_bytes
compare_bytes-NoLater [] ys h = tt
compare_bytes-NoLater (x ∷ xs) [] h = absurd (h refl)
compare_bytes-NoLater (x ∷ xs) (y ∷ ys) h = elim (then_with-split x y (compare_bytes xs ys) h) [
  | inl less ↦ inl less
  | inr (same, rest) ↦ inr (same, compare_bytes-NoLater xs ys rest)
]

module _ (lib : Primitives) (addresses : Addresses) where
  open lib use {PeerId}
  open addresses use {Multiaddr}

  abbrev Candidate : Type 0
  Candidate = RelayCandidate PeerId Multiaddr

  abbrev name : Candidate → Bytes
  name c = as_bytes (lib.to_string c.peer_id)

  -- One candidate may stand before another: it is healthier; or as healthy, and online where the
  -- other is not; or alike in both, and quicker; or as quick too, and seen longer ago; or as old too,
  -- and its name is no later.
  pub data Before (now : ℕ) (x y : Candidate) : Type 0 where
    healthier : Healthier x.health y.health → Before now x y
    online_first : x.health ≡ y.health → x.status ≡ online → y.status ≢ online → Before now x y
    quicker :
        x.health ≡ y.health
        → ((x.status ≡ online) ↔ (y.status ≡ online))
        → Quicker x.latency y.latency
        → Before now x y
    older :
        x.health ≡ y.health
        → ((x.status ≡ online) ↔ (y.status ≡ online))
        → AsQuick x.latency y.latency
        → Older now x.last_seen y.last_seen
        → Before now x y
    named :
        x.health ≡ y.health
        → ((x.status ≡ online) ↔ (y.status ≡ online))
        → AsQuick x.latency y.latency
        → AsOld now x.last_seen y.last_seen
        → NoLater (name x) (name y)
        → Before now x y

  pub compare_candidates-Before :
      (now : ℕ) (x y : Candidate)
      → now < duration_max
      → compare_candidates lib addresses now x y ≢ Ordering.gt
      → Before now x y
  unfolding compare_candidates
  compare_candidates-Before now x y small h =
      elim (then_with-split (health_rank y.health) (health_rank x.health) _ h) [
        | inl health ↦ healthier (health_rank-lt x.health y.health health)
        | inr (health, h₁) ↦
            let alike = health_rank-eq x.health y.health health in
            elim (then_with-split (status_rank y.status) (status_rank x.status) _ h₁) [
              | inl status ↦
                  let (up, down) = status_rank-lt x.status y.status status in
                  online_first alike up down
              | inr (status, h₂) ↦
                  let both = status_rank-eq x.status y.status status in
                  elim (then_with-split (latency_rank x.latency) (latency_rank y.latency) _ h₂) [
                    | inl latency ↦ quicker alike both (latency_rank-lt x.latency y.latency latency)
                    | inr (latency, h₃) ↦
                        let quick : AsQuick x.latency y.latency = (
                          latency_rank-le x.latency y.latency (omega (arith, latency)),
                          latency_rank-le y.latency x.latency (omega (arith, latency)),
                        ) in
                        elim (then_with-split (freshness_rank y.last_seen now)
                          (freshness_rank x.last_seen now) _ h₃) [
                            | inl age ↦
                                older alike both quick
                                  (freshness_rank-lt now x.last_seen y.last_seen small age)
                            | inr (age, h₄) ↦
                                named alike both quick
                                  (freshness_rank-eq now x.last_seen y.last_seen small age)
                                  (compare_bytes-NoLater (name x) (name y) h₄)
                          ]
                  ]
            ]
      ]

  -- Of two healthy candidates that are online, the one that is ranked first is no slower.
  pub compare_candidates-NoSlower :
      (now : ℕ) (x y : Candidate)
      → x.health ≡ healthy
      → y.health ≡ healthy
      → x.status ≡ online
      → y.status ≡ online
      → compare_candidates lib addresses now x y ≢ Ordering.gt
      → NoSlower x.latency y.latency
  unfolding compare_candidates health_rank status_rank
  compare_candidates-NoSlower now x y hx hy sx sy h =
      latency_rank-le x.latency y.latency
        (elim (then_with-split (latency_rank x.latency) (latency_rank y.latency) _
          (rw (hx, hy, sx, sy, then_with) at h)) [
            | inl less ↦ omega (arith, less)
            | inr (same, rest) ↦ omega (arith, same)
          ])
