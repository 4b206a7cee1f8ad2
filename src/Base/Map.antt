-- ===== src/Base/Map.antt =====
-- `std::collections::HashMap` as a list of entries, over any decided equality of keys. The entry that
-- was inserted last stands first.
use real_layer.Base.{
  ◌+◌, ◌≤◌, ◌≡◌, ◌≢◌, ==_ne, refl, Bool, true, false, List, [], ◌∷◌, Option, none, some, arith, Eq,
  ◌==◌, if◌then◌else◌, length, Option-cases, inl, inr,
}

abbrev pub Map {ℓ κ} : Type ℓ → Type κ → Type (ℓ ⊔ κ)
Map K V = List (K × V)

-- An entry, if it passes a test.
abbrev pub keep {ℓ} : {V : Type ℓ} → (V → Bool) → Option V → Option V
keep p none = none
keep p (some v) = if p v then some v else none

module _ {ℓ κ} {K : Type ℓ} {V : Type κ} ⦃e : Eq K⦄ where
  unfoldable pub get : K → Map K V → Option V
  get k [] = none
  get k ((j, v) ∷ m) = if j == k then some v else get k m

  unfoldable pub remove : K → Map K V → Map K V
  remove k [] = []
  remove k ((j, v) ∷ m) = let rest = remove k m in if j == k then rest else (j, v) ∷ rest

  unfoldable pub insert : K → V → Map K V → Map K V
  insert k v m = (k, v) ∷ remove k m

  unfoldable pub contains_key : K → Map K V → Bool
  contains_key k m = elim (get k m) [ none ↦ false | some v ↦ true ]

  -- `retain`, with the test on the value.
  unfoldable pub retain : (V → Bool) → Map K V → Map K V
  retain p [] = []
  retain p ((k, v) ∷ m) = let rest = retain p m in if p v then (k, v) ∷ rest else rest

  -- Every key stands once.
  abbrev pub IsUnique : Map K V → Type κ
  IsUnique [] = Unit
  IsUnique ((k, v) ∷ m) = (get k m ≡ none) × IsUnique m

  pub get-remove : (k j : K) (m : Map K V) → get j (remove k m) ≡ (if k == j then none else get j m)
  unfolding get remove
  get-remove k j [] = ground arith
  get-remove k j ((i, v) ∷ m) =
      ground (arith, get-remove k j m, e.beq_iff i k, e.beq_iff i j, e.beq_iff k j)

  pub get-insert :
      (k j : K) (v : V) (m : Map K V) → get j (insert k v m) ≡ (if k == j then some v else get j m)
  unfolding get insert
  get-insert k j v m = ground (arith, get-remove k j m)

  pub get-empty : (k : K) (v : V) (m : Map K V) → m ≡ [] → get k m ≢ some v
  unfolding get
  get-empty k v m e h = ground (arith, rw e at h)

  pub contains_key-false : (k : K) (m : Map K V) → contains_key k m ≡ false → get k m ≡ none
  unfolding contains_key
  contains_key-false k m h = ground arith

  pub contains_key-true :
      (k : K) (m : Map K V) → contains_key k m ≡ true → (v : V) × (get k m ≡ some v)
  unfolding contains_key
  contains_key-true k m h = elim (Option-cases (get k m)) [
    | inl e ↦ absurd (ground arith)
    | inr found ↦ found
  ]

  pub contains_key-remove :
      (k j : K) (m : Map K V) → contains_key j (remove k m) ≡ true → contains_key j m ≡ true
  unfolding contains_key
  contains_key-remove k j m h = ground (arith, get-remove k j m)

  pub contains_key-insert :
      (k j : K) (v : V) (m : Map K V)
      → contains_key j m ≡ true
      → contains_key j (insert k v m) ≡ true
  unfolding contains_key
  contains_key-insert k j v m h = ground (arith, get-insert k j v m)

  pub contains_key-insert_same :
      (k : K) (v : V) (m : Map K V) → contains_key k (insert k v m) ≡ true
  unfolding contains_key
  contains_key-insert_same k v m = ground (arith, get-insert k k v m, e.beq_iff k k)

  pub contains_key-remove_same : (k : K) (m : Map K V) → contains_key k (remove k m) ≡ false
  unfolding contains_key
  contains_key-remove_same k m = ground (arith, get-remove k k m, e.beq_iff k k)

  pub get-insert_same : (k : K) (v : V) (m : Map K V) → get k (insert k v m) ≡ some v
  get-insert_same k v m = ground (arith, get-insert k k v m, e.beq_iff k k)

  -- Reading a map after a removal, both ways.
  pub get-remove-some :
      (k j : K) (v : V) (m : Map K V) → get j (remove k m) ≡ some v → (k ≢ j) × (get j m ≡ some v)
  get-remove-some k j v m h =
      (λ p. ground (arith, get-remove k j m, e.beq_iff k j), ground (arith, get-remove k j m))

  pub get-remove_ne :
      (k j : K) (v : V) (m : Map K V) → k ≢ j → get j m ≡ some v → get j (remove k m) ≡ some v
  get-remove_ne k j v m ne h = rw (get-remove k j m, ==_ne k j ne) h

  get-retain-none :
      (p : V → Bool) (k : K) (m : Map K V) → get k m ≡ none → get k (retain p m) ≡ none
  unfolding get retain
  get-retain-none p k [] h = refl
  get-retain-none p k ((j, v) ∷ m) h = ground (arith, get-retain-none p k m)

  pub get-retain :
      (p : V → Bool) (k : K) (m : Map K V) → IsUnique m → get k (retain p m) ≡ keep p (get k m)
  unfolding get retain
  get-retain p k [] h = refl
  get-retain p k ((j, v) ∷ m) h =
      ground (arith, get-retain p k m h.1, e.beq_iff j k, get-retain-none p k m)

  pub remove-IsUnique : (k : K) (m : Map K V) → IsUnique m → IsUnique (remove k m)
  unfolding remove
  remove-IsUnique k [] h = tt
  remove-IsUnique k ((j, v) ∷ m) h = ground (arith, remove-IsUnique k m h.1, get-remove k j m)

  pub insert-IsUnique : (k : K) (v : V) (m : Map K V) → IsUnique m → IsUnique (insert k v m)
  unfolding insert
  insert-IsUnique k v m h = (ground (arith, get-remove k k m, e.beq_iff k k), remove-IsUnique k m h)

  pub retain-IsUnique : (p : V → Bool) (m : Map K V) → IsUnique m → IsUnique (retain p m)
  unfolding retain
  retain-IsUnique p [] h = tt
  retain-IsUnique p ((k, v) ∷ m) h = ground (arith, retain-IsUnique p m h.1, get-retain-none p k m)

  pub length-remove-le : (k : K) (m : Map K V) → length (remove k m) ≤ length m
  unfolding remove
  length-remove-le k [] = omega arith
  length-remove-le k ((j, v) ∷ m) = ground (arith, length-remove-le k m)

  pub length-insert-le : (k : K) (v : V) (m : Map K V) → length (insert k v m) ≤ length m + 1
  unfolding insert
  length-insert-le k v m = omega (arith, length-remove-le k m)

  length-remove-missing : (k : K) (m : Map K V) → get k m ≡ none → length (remove k m) ≡ length m
  unfolding get remove
  length-remove-missing k [] h = refl
  length-remove-missing k ((j, v) ∷ m) h = ground (arith, length-remove-missing k m)

  length-remove-known :
      (k : K) (v : V) (m : Map K V)
      → IsUnique m
      → get k m ≡ some v
      → length (remove k m) + 1 ≡ length m
  unfolding get remove
  length-remove-known k v [] u h = absurd (ground arith)
  length-remove-known k v ((j, w) ∷ m) u h =
      ground (arith, length-remove-missing k m, length-remove-known k v m u.1, e.beq_iff j k)

  pub length-insert-known :
      (k : K) (v w : V) (m : Map K V)
      → IsUnique m
      → get k m ≡ some v
      → length (insert k w m) ≡ length m
  unfolding insert
  length-insert-known k v w m u h = ground (arith, length-remove-known k v m u h)

  pub length-retain-le : (p : V → Bool) (m : Map K V) → length (retain p m) ≤ length m
  unfolding retain
  length-retain-le p [] = omega arith
  length-retain-le p ((k, v) ∷ m) = ground (arith, length-retain-le p m)

pub ruleset map_laws = (get-remove, get-insert)
