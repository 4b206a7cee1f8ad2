-- ===== src/Base/Elements.antt =====
-- A property of all elements of a list, and where an element stands.
use Prim.Native.Nat.{ℕ, zero, suc}
use mathlib.Core.Path.{◌≡◌, refl}
use mathlib.Core.List.{List, [], ◌∷◌}
use mathlib.Core.Bool.{Bool, true, false}
use mathlib.Core.Option.{some}
use native.Mathlib.Omega.{arith}
use real_layer.Base.Tests.{if◌then◌else◌}
use real_layer.Base.Lists.{get_elem?}

module _ {ℓ} {A : Type ℓ} where
  abbrev pub All {κ} : (A → Type κ) → List A → Type κ
  All p [] = Unit
  All p (x ∷ xs) = p x × All p xs

  abbrev pub filter : (A → Bool) → List A → List A
  filter p [] = []
  filter p (x ∷ xs) = let rest = filter p xs in if p x then x ∷ rest else rest

  abbrev pub Among : A → List A → Type ℓ
  Among x xs = (i : ℕ) × (get_elem? xs i ≡ some x)

  pub All-weaken {κ μ} :
      {p : A → Type κ} {q : A → Type μ}
      → ((x : A) → p x → q x)
      → (xs : List A) → All p xs
      → All q xs
  All-weaken f [] h = tt
  All-weaken f (x ∷ xs) h = (f x h.0, All-weaken f xs h.1)

  pub All-at {κ} : (p : A → Type κ) (x : A) (xs : List A) → Among x xs → All p xs → p x
  All-at p x [] (i, e) h = absurd (ground arith)
  All-at p x (y ∷ ys) (zero, e) h = rw (some_inj y x e) at h.0
    where
      some_inj : (a b : A) → some a ≡ some b → a ≡ b
      some_inj a b e = ground arith
  All-at p x (y ∷ ys) (suc i, e) h = All-at p x ys (i, e) h.1

  pub All-Among : (xs : List A) → All (λ x. Among x xs) xs
  All-Among [] = tt
  All-Among (x ∷ xs) = ((0, refl), All-weaken (λ y (i, e). (suc i, e)) xs (All-Among xs))

  All-if {κ} :
      (q : A → Type κ) (b : Bool) (x : A) (xs : List A)
      → (b ≡ true → q x)
      → All q xs
      → All q (if b then x ∷ xs else xs)
  All-if q true x xs h hs = (h refl, hs)
  All-if q false x xs h hs = hs

  -- What holds of all elements holds of those that pass, and they pass.
  pub All-filter {κ} :
      (p : A → Bool) (q : A → Type κ) (xs : List A) → All q xs → All q (filter p xs)
  All-filter p q [] h = tt
  All-filter p q (x ∷ xs) h = All-if q (p x) x (filter p xs) (λ e. h.0) (All-filter p q xs h.1)

  pub filter-All : (p : A → Bool) (xs : List A) → All (λ x. p x ≡ true) (filter p xs)
  filter-All p [] = tt
  filter-All p (x ∷ xs) = All-if (λ y. p y ≡ true) (p x) x (filter p xs) (λ e. e) (filter-All p xs)

  -- What holds of those that pass holds of all elements, if they pass.
  pub filter-All_if {κ} :
      (p : A → Bool) (q : A → Type κ) (xs : List A)
      → All q (filter p xs)
      → All (λ x. p x ≡ true → q x) xs
  filter-All_if p q [] h = tt
  filter-All_if p q (x ∷ xs) h = by_test (p x) refl h (filter-All_if p q xs)
    where
      by_test :
          (b : Bool)
          → p x ≡ b
          → All q (if b then x ∷ filter p xs else filter p xs)
          → (All q (filter p xs) → All (λ y. p y ≡ true → q y) xs)
          → (p x ≡ true → q x) × All (λ y. p y ≡ true → q y) xs
      by_test true e h rec = (λ t. h.0, rec h.1)
      by_test false e h rec = (λ t. absurd (ground arith), rec h)

  pub All-both {κ μ} :
      (p : A → Type κ) (q : A → Type μ) (xs : List A)
      → All p xs
      → All q xs
      → All (λ x. p x × q x) xs
  All-both p q [] h k = tt
  All-both p q (x ∷ xs) h k = ((h.0, k.0), All-both p q xs h.1 k.1)
