-- ===== src/Relay/Candidates/Ranking.antt =====
-- `RelayRanking`: the comparison of candidates is an order, and ranking sorts by it.
use Prim.Native.Nat.{compare, Ordering}
use mathlib.Core.List.{Perm}
use real_layer.Base.Bytes.{Bytes}
use real_layer.Base.Text.{as_bytes}
use real_layer.Base.{ℕ, ◌≡◌, ◌≢◌, ◌<◌, ◌≤◌, List, [], ◌∷◌, arith, All, All-weaken}
use real_layer.Network.Session.Primitives.{Primitives}
use real_layer.Relay.Candidates.{
  Addresses, RelayCandidate, then_with, compare_bytes, compare_candidates, rank, health_rank,
  status_rank, latency_rank, freshness_rank, duration_since, duration_max, sort_by,
}
use real_layer.Relay.Candidates.Precedence.{Before, compare_candidates-Before}
use real_layer.Relay.Candidates.Order.{IsOrder, IsSorted, sort_by-IsSorted, sort_by-perm}

-- A first criterion that rises, before others.
then_with-total :
    (m n : ℕ) (o o' : Ordering)
    → (o ≡ Ordering.gt → o' ≢ Ordering.gt)
    → then_with (compare m n) o ≡ Ordering.gt
    → then_with (compare n m) o' ≢ Ordering.gt
unfolding then_with
then_with-total m n o o' h e e' = ground arith

then_with_trans :
    (m n k : ℕ) (o o' o'' : Ordering)
    → (o ≢ Ordering.gt → o' ≢ Ordering.gt → o'' ≢ Ordering.gt)
    → then_with (compare m n) o ≢ Ordering.gt
    → then_with (compare n k) o' ≢ Ordering.gt
    → then_with (compare m k) o'' ≢ Ordering.gt
unfolding then_with
then_with_trans m n k o o' o'' h e e' e'' = ground arith

compare_bytes-total :
    (xs ys : Bytes) → compare_bytes xs ys ≡ Ordering.gt → compare_bytes ys xs ≢ Ordering.gt
unfolding compare_bytes
compare_bytes-total [] [] h e = ground arith
compare_bytes-total [] (y ∷ ys) h e = ground arith
compare_bytes-total (x ∷ xs) [] h e = ground arith
compare_bytes-total (x ∷ xs) (y ∷ ys) h e =
    then_with-total x y (compare_bytes xs ys) (compare_bytes ys xs) (compare_bytes-total xs ys) h e

compare_bytes_trans :
    (xs ys zs : Bytes)
    → compare_bytes xs ys ≢ Ordering.gt
    → compare_bytes ys zs ≢ Ordering.gt
    → compare_bytes xs zs ≢ Ordering.gt
unfolding compare_bytes
compare_bytes_trans [] ys [] h h' e = ground arith
compare_bytes_trans [] ys (z ∷ zs) h h' e = ground arith
compare_bytes_trans (x ∷ xs) [] zs h h' e = ground arith
compare_bytes_trans (x ∷ xs) (y ∷ ys) [] h h' e = ground arith
compare_bytes_trans (x ∷ xs) (y ∷ ys) (z ∷ zs) h h' e =
    then_with_trans x y z (compare_bytes xs ys) (compare_bytes ys zs) (compare_bytes xs zs)
      (compare_bytes_trans xs ys zs) h h' e

-- The reversed criteria: the greater rank comes first.
then_with-trans_down :
    (m n k : ℕ) (o o' o'' : Ordering)
    → (o ≢ Ordering.gt → o' ≢ Ordering.gt → o'' ≢ Ordering.gt)
    → then_with (compare n m) o ≢ Ordering.gt
    → then_with (compare k n) o' ≢ Ordering.gt
    → then_with (compare k m) o'' ≢ Ordering.gt
unfolding then_with
then_with-trans_down m n k o o' o'' h e e' e'' = ground arith

module _ (lib : Primitives) (addresses : Addresses) where
  open lib use {PeerId}
  open addresses use {Multiaddr}

  abbrev pub Candidate : Type 0
  Candidate = RelayCandidate PeerId Multiaddr

  abbrev id_bytes : Candidate → Bytes
  id_bytes c = as_bytes (lib.to_string c.peer_id)

  pub compare_candidates-IsOrder : (now : ℕ) → IsOrder (compare_candidates lib addresses now)
  unfolding compare_candidates
  compare_candidates-IsOrder now = record {
    total = λ x y. then_with-total (health_rank y.health) (health_rank x.health) _ _ (
        then_with-total (status_rank y.status) (status_rank x.status) _ _ (
          then_with-total (latency_rank x.latency) (latency_rank y.latency) _ _ (
            then_with-total (freshness_rank y.last_seen now) (freshness_rank x.last_seen now) _ _
              (compare_bytes-total (id_bytes x) (id_bytes y)))));
    trans = λ x y z.
        then_with-trans_down (health_rank x.health) (health_rank y.health) (health_rank z.health) _
          _ _
          (then_with-trans_down (status_rank x.status) (status_rank y.status) (status_rank z.status)
            _ _ _
            (then_with_trans (latency_rank x.latency) (latency_rank y.latency)
              (latency_rank z.latency) _ _ _
              (then_with-trans_down (freshness_rank x.last_seen now)
                (freshness_rank y.last_seen now) (freshness_rank z.last_seen now) _ _ _
                (compare_bytes_trans (id_bytes x) (id_bytes y) (id_bytes z)))));
  }

  -- Each candidate may stand before all that come after it.
  abbrev pub IsRanked : (now : ℕ) → List Candidate → Type 0
  IsRanked now [] = Unit
  IsRanked now (c ∷ cs) = All (Before lib addresses now c) cs × IsRanked now cs

  IsSorted-IsRanked :
      (now : ℕ) (cs : List Candidate)
      → now < duration_max
      → IsSorted (compare_candidates lib addresses now) cs
      → IsRanked now cs
  IsSorted-IsRanked now [] small h = tt
  IsSorted-IsRanked now (c ∷ cs) small h = (
    All-weaken (λ d. compare_candidates-Before lib addresses now c d small) cs h.0,
    IsSorted-IsRanked now cs small h.1,
  )

  -- Ranking keeps all candidates. It puts healthier ones first; of those that are as healthy, the ones
  -- that are online; of those the ones with less latency, a missing one counting as 2 ^ 64 - 1
  -- seconds; of those the ones that were seen longer ago, an instant in the future counting as longest
  -- ago, where docs/architecture.md has newer timestamps first; and of those the ones whose peer has
  -- the lesser name. The clock reads less than 2 ^ 64 - 1 seconds.
  pub rank-IsSorted :
      (candidates : List Candidate) (now : ℕ)
      → now < duration_max
      → IsRanked now (rank lib addresses candidates now)
        × Perm (rank lib addresses candidates now) candidates
  unfolding rank
  rank-IsSorted candidates now small = (
    IsSorted-IsRanked now (sort_by (compare_candidates lib addresses now) candidates) small (
        sort_by-IsSorted (compare_candidates lib addresses now) (compare_candidates-IsOrder now)
          candidates),
    sort_by-perm (compare_candidates lib addresses now) candidates,
  )

  -- Of two candidates that are alike in health, status and latency, the one that was seen longer ago
  -- goes first.
  compare_candidates-stale :
      (now : ℕ) (x y : Candidate)
      → x.health ≡ y.health
      → x.status ≡ y.status
      → x.latency ≡ y.latency
      → x.last_seen < y.last_seen
      → y.last_seen ≤ now
      → compare_candidates lib addresses now x y ≡ Ordering.lt
  unfolding compare_candidates then_with freshness_rank duration_since
  compare_candidates-stale now x y health status latency older past =
      rw (health, status, latency) (ground arith)
