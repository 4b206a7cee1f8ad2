-- ===== src/Relay/State/Records.antt =====
-- The latency measurements that a relay keeps.
use real_layer.Base.{
  ℕ, zero, suc, ◌+◌, ◌-◌, ◌≤◌, ◌≡◌, ◌≢◌, refl, sym, ap, ◌∙◌, List, [], ◌∷◌, ◌++◌, arith, Eq, length,
  drop, Bool-cases, inl, inr, if◌then◌else◌, ◌==◌, nat_eq, length-drop, length-append, drop-drop,
}
use mathlib.Core.List.{append_assoc, append-nil}
use real_layer.Relay.State.{RelayState, LatencyMeasurement, record_latency}

module _ {ℓ} {A : Type ℓ} where
  drop-append_le : (n : ℕ) (xs ys : List A) → n ≤ length xs → drop n (xs ++ ys) ≡ drop n xs ++ ys
  drop-append_le zero xs ys h = refl
  drop-append_le (suc n) [] ys h = absurd (omega arith)
  drop-append_le (suc n) (x ∷ xs) ys h = drop-append_le n xs ys (omega arith)

  -- The last hundred of a list.
  abbrev pub latest : List A → List A
  latest xs = drop (length xs - 100) xs

  latest-skip :
      (xs : List A) (y : A) (n : ℕ)
      → n ≡ length xs + 1 - 100
      → n ≤ length xs
      → latest (xs ++ y ∷ []) ≡ drop n xs ++ y ∷ []
  latest-skip xs y n h small =
      ap (λ k. drop k (xs ++ y ∷ [])) (omega (arith, length-append xs (y ∷ [])))
      ∙ drop-append_le n xs (y ∷ []) small

  -- One more element pushes out the first of a hundred.
  latest-snoc :
      (xs : List A) (y : A)
      → latest (xs ++ y ∷ [])
        ≡ (if length (latest xs) == 100 then drop 1 (latest xs) else latest xs) ++ y ∷ []
  latest-snoc xs y = elim (Bool-cases (length (latest xs) == 100)) [
    | inl full ↦ rw full (at_limit (ground arith))
    | inr room ↦ rw room (latest-skip xs y (length xs - 100) (below (ground arith)) (omega arith))
  ]
    where
      measured : length (latest xs) ≡ length xs - (length xs - 100)
      measured = length-drop (length xs - 100) xs

      below : length (latest xs) ≢ 100 → length xs - 100 ≡ length xs + 1 - 100
      below h = ground (arith, measured)

      next : length (latest xs) ≡ 100 → length xs + 1 - 100 ≡ length xs - 100 + 1
      next h = omega (arith, measured)

      at_limit : length (latest xs) ≡ 100 → latest (xs ++ y ∷ []) ≡ drop 1 (latest xs) ++ y ∷ []
      at_limit h =
          latest-skip xs y (length xs + 1 - 100) refl (omega (arith, next h, measured))
          ∙ ap (λ bs. bs ++ y ∷ [])
              (sym (drop-drop 1 (length xs - 100) (length xs + 1 - 100) xs (next h)))

module _ {P : Type 0} ⦃e : Eq P⦄ where
  unfoldable pub record_all : List (LatencyMeasurement P) → RelayState P → RelayState P
  record_all [] s = s
  record_all (m ∷ ms) s = record_all ms (record_latency m s)

  record_latency-latest :
      (m : LatencyMeasurement P) (s : RelayState P) (past : List (LatencyMeasurement P))
      → s.latency_measurements ≡ latest past
      → (record_latency m s).latency_measurements ≡ latest (past ++ m ∷ [])
  unfolding record_latency
  record_latency-latest m s past h = rw h (sym (latest-snoc past m))

  record_all-latest :
      (ms : List (LatencyMeasurement P)) (s : RelayState P) (past : List (LatencyMeasurement P))
      → s.latency_measurements ≡ latest past
      → (record_all ms s).latency_measurements ≡ latest (past ++ ms)
  unfolding record_all
  record_all-latest [] s past h = h ∙ ap latest (sym (append-nil past))
  record_all-latest (m ∷ ms) s past h =
      record_all-latest ms (record_latency m s) (past ++ m ∷ []) (record_latency-latest m s past h)
      ∙ ap latest (append_assoc past (m ∷ []) ms)

  -- Of any measurements that are recorded, a state that had none keeps the last hundred, in order.
  pub record_latency-keeps :
      (ms : List (LatencyMeasurement P)) (s : RelayState P)
      → s.latency_measurements ≡ []
      → (record_all ms s).latency_measurements ≡ drop (length ms - 100) ms
  record_latency-keeps ms s h = record_all-latest ms s [] h
