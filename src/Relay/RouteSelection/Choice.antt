-- ===== src/Relay/RouteSelection/Choice.antt =====
-- Which relays `RouteSelector::select` takes.
use Prim.Native.Nat.{Ordering}
use real_layer.Base.{
  ℕ, ◌≡◌, ◌≢◌, refl, sym, List, [], ◌∷◌, true, false, ok, arith, All, All-weaken, Among, All-Among,
  All-filter, filter-All, filter-All_if, All-both, Eq, filter, Bool-cases, inl, inr, ◌==◌,
}
use real_layer.Network.Session.Primitives.{Primitives}
use real_layer.Relay.Candidates.{Addresses, compare_candidates, rank}
use real_layer.Relay.Candidates.Order.{IsSorted, sort_by-IsSorted, All-sort_by, sort_by-All}
use real_layer.Relay.Candidates.Precedence.{NoSlower, compare_candidates-NoSlower}
use real_layer.Relay.Candidates.Ranking.{compare_candidates-IsOrder}
use real_layer.Relay.RouteSelection.Eligibility.{IsEligible, is_eligible_iff}
use real_layer.Relay.RouteSelection.{
  RouteMode, one_hop, two_hop, Route, one_hop_route, two_hop_route, RouteSelectionPolicy, hop_of,
  is_eligible, route_over, select, Candidate, peers,
}

module _ (lib : Primitives) (addresses : Addresses) where
  open lib use {PeerId}
  open addresses use {Multiaddr}

  instance abbrev identities : Eq PeerId
  identities = lib.peer_eq

  module _ (client : PeerId) (candidates : List (Candidate lib addresses))
      (policy : RouteSelectionPolicy) (now : ℕ) where
    -- A candidate that passes the filters.
    pub record IsTaken (c : Candidate lib addresses) : Type 0 where
      pub among : Among c candidates
      pub eligible : IsEligible lib addresses client policy c

    -- No eligible candidate has less latency.
    abbrev pub IsBest : Candidate lib addresses → Type 0
    IsBest c =
        All (λ d. IsEligible lib addresses client policy d → NoSlower c.latency d.latency)
          candidates

    -- No eligible candidate of another peer than `c` has less latency.
    abbrev pub IsNext : (c d : Candidate lib addresses) → Type 0
    IsNext c d =
        All
          (λ x.
            IsEligible lib addresses client policy x
            → x.peer_id ≢ c.peer_id
            → NoSlower d.latency x.latency)
          candidates

    abbrev pub IsChoice : Route PeerId Multiaddr → Type 0
    IsChoice (one_hop_route relay) =
        (c : Candidate lib addresses) × IsTaken c × IsBest c × (relay ≡ hop_of c)
    IsChoice (two_hop_route entry exit) =
        (c : Candidate lib addresses) × (d : Candidate lib addresses) × IsTaken c
        × IsTaken d
        × IsBest c
        × IsNext c d
        × (c.peer_id ≢ d.peer_id)
        × (entry ≡ hop_of c)
        × (exit ≡ hop_of d)

    abbrev eligible_ones : List (Candidate lib addresses)
    eligible_ones = filter (is_eligible lib addresses client policy) candidates

    eligible_ones-IsTaken : All IsTaken eligible_ones
    eligible_ones-IsTaken =
        let test = is_eligible lib addresses client policy in
        All-weaken
          (λ c (i, e). record {
            among = i;
            eligible = (is_eligible_iff lib addresses client policy c).0 e;
          })
          eligible_ones
          (All-both (λ c. Among c candidates) (λ c. test c ≡ true) eligible_ones
            (All-filter test (λ c. Among c candidates) candidates (All-Among candidates))
            (filter-All test candidates))

    ranked-IsTaken : All IsTaken (rank lib addresses eligible_ones now)
    unfolding rank
    ranked-IsTaken =
        All-sort_by IsTaken (compare_candidates lib addresses now) eligible_ones
          eligible_ones-IsTaken

    -- What holds of all ranked candidates holds of the eligible ones.
    ranked-All :
        (p : Candidate lib addresses → Type 0) {q : Candidate lib addresses → Type 0}
        → ((d : Candidate lib addresses) → IsEligible lib addresses client policy d → p d → q d)
        → All p (rank lib addresses eligible_ones now)
        → All (λ d. IsEligible lib addresses client policy d → q d) candidates
    unfolding rank
    ranked-All p f h =
        All-weaken
          (λ d holds e. f d e (holds ((is_eligible_iff lib addresses client policy d).1 e)))
          candidates
          (filter-All_if (is_eligible lib addresses client policy) p candidates
            (sort_by-All p (compare_candidates lib addresses now) eligible_ones h))

    no_slower :
        (c d : Candidate lib addresses)
        → IsEligible lib addresses client policy c
        → IsEligible lib addresses client policy d
        → compare_candidates lib addresses now c d ≢ Ordering.gt
        → NoSlower c.latency d.latency
    no_slower c d e e' h =
        compare_candidates-NoSlower lib addresses now c d e.health e'.health e.status e'.status h

    ranked-IsSorted :
        IsSorted (compare_candidates lib addresses now) (rank lib addresses eligible_ones now)
    unfolding rank
    ranked-IsSorted =
        sort_by-IsSorted (compare_candidates lib addresses now)
          (compare_candidates-IsOrder lib addresses now) eligible_ones

    -- A candidate does not come after itself.
    itself : (c : Candidate lib addresses) → compare_candidates lib addresses now c c ≢ Ordering.gt
    itself c h = (compare_candidates-IsOrder lib addresses now).total c c h h

    head-IsBest :
        (c : Candidate lib addresses) (cs : List (Candidate lib addresses))
        → rank lib addresses eligible_ones now ≡ c ∷ cs
        → IsBest c
    head-IsBest c cs h =
        let cmp = compare_candidates lib addresses now in
        let best : All (λ d. cmp c d ≢ Ordering.gt) (c ∷ cs) =
          (itself c, (rw h at ranked-IsSorted).0) in
        let taken = (rw h at ranked-IsTaken).0 in
        ranked-All (λ d. cmp c d ≢ Ordering.gt) (λ d e. no_slower c d taken.eligible e) (rw h best)

    second-IsNext :
        (c d : Candidate lib addresses) (cs : List (Candidate lib addresses))
        → rank lib addresses eligible_ones now ≡ c ∷ d ∷ cs
        → IsNext c d
    second-IsNext c d cs h =
        let cmp = compare_candidates lib addresses now in
        let after = (rw h at ranked-IsSorted).1.0 in
        let best : All (λ x. x.peer_id ≢ c.peer_id → cmp d x ≢ Ordering.gt) (c ∷ d ∷ cs) =
          (λ ne. absurd (ne refl), (λ ne. itself d, All-weaken (λ x below ne. below) cs after)) in
        let taken = (rw h at ranked-IsTaken).1.0 in
        ranked-All (λ x. x.peer_id ≢ c.peer_id → cmp d x ≢ Ordering.gt)
          (λ x e below ne. no_slower d x taken.eligible e (below ne)) (rw h best)

    choose :
        (mode : RouteMode) (cs : List (Candidate lib addresses)) (r : Route PeerId Multiaddr)
        → All IsTaken cs
        → ((c : Candidate lib addresses) (ds : List (Candidate lib addresses))
            → cs ≡ c ∷ ds
            → IsBest c)
        → ((c d : Candidate lib addresses) (ds : List (Candidate lib addresses))
            → cs ≡ c ∷ d ∷ ds
            → IsNext c d)
        → route_over lib addresses mode cs ≡ ok r
        → IsChoice r
    unfolding route_over
    choose mode [] r taken best second h = absurd (ground arith)
    choose one_hop (c ∷ cs) r taken best second h =
        rw (sym (route h)) (c, taken.0, best c cs refl, refl)
      where
        route : route_over lib addresses one_hop (c ∷ cs) ≡ ok r → one_hop_route (hop_of c) ≡ r
        route h = ground arith
    choose two_hop (c ∷ []) r taken best second h = absurd (ground arith)
    choose two_hop (c ∷ d ∷ cs) r taken best second h = elim (Bool-cases (c.peer_id == d.peer_id)) [
      | inl same ↦ absurd (ground arith)
      | inr other ↦ rw (sym (route other h)) (
        c,
        d,
        taken.0,
        taken.1.0,
        best c (d ∷ cs) refl,
        second c d cs refl,
        λ e. ground (arith, identities.beq_iff c.peer_id d.peer_id),
        refl,
        refl,
      )
    ]
      where
        route :
            (c.peer_id == d.peer_id) ≡ false
            → route_over lib addresses two_hop (c ∷ d ∷ cs) ≡ ok r
            → two_hop_route (hop_of c) (hop_of d) ≡ r
        route other h = ground arith

    -- A route has eligible candidates as its hops: healthy online relays other than the client, that
    -- speak QUIC and have all that the policy requires. No eligible candidate has less latency than the
    -- first hop; the two hops of a route are different peers, and no eligible candidate of another
    -- peer than the first hop has less latency than the second. A missing latency counts as 2 ^ 64 - 1
    -- seconds.
    pub select-IsChoice :
        (r : Route PeerId Multiaddr)
        → select lib addresses client candidates policy now ≡ ok r
        → IsChoice r
    unfolding select
    select-IsChoice r h =
        choose policy.mode (rank lib addresses eligible_ones now) r ranked-IsTaken head-IsBest
          second-IsNext h
