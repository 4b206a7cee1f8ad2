-- ===== src/Network/Nat/Sweep.antt =====
-- Removing from both maps all entries that pass a test: the loops of `NatTable::cleanup` and
-- `NatTable::remove_session`.
use real_layer.Base.{
  ◌≤◌, ◌≡◌, refl, ◌∙◌, Bool, false, ◌||◌, List, [], ◌∷◌, Option, none, some, arith, Eq, ◌==◌, any,
  Bool-cases, Option-cases, inl, inr, if◌then◌else◌, length,
}
use real_layer.Base.Map.{Map, IsUnique, get, get-remove, length-remove-le}
use real_layer.Network.Nat.Maps.{
  Tables, Inverse, AllPaired, forget, forget_all, forget-Inverse, forget_all-Inverse, entry-Paired,
}

module _ {ℓ} {K V A : Type ℓ} ⦃e : Eq K⦄ ⦃d : Eq A⦄ (address : V → A) (p : K → V → Bool) where
  -- The entries that pass the test, with their addresses.
  unfoldable pub entries_where : Map K V → List (K × A)
  entries_where [] = []
  entries_where ((k, v) ∷ m) =
      let rest = entries_where m in if p k v then (k, address v) ∷ rest else rest

  -- The keys that pass the test.
  unfoldable pub keys_where : Map K V → List K
  keys_where [] = []
  keys_where ((k, v) ∷ m) = let rest = keys_where m in if p k v then k ∷ rest else rest

  -- `if let Some(v) = mappings.remove(&k) { reverse.remove(&address); }`
  unfoldable pub forget_key : K → Tables K V A → Tables K V A
  forget_key k t = elim (get k t.mappings) [ none ↦ t | some v ↦ forget k (address v) t ]

  unfoldable pub forget_keys : List K → Tables K V A → Tables K V A
  forget_keys [] t = t
  forget_keys (k ∷ ks) t = forget_keys ks (forget_key k t)

  -- What is left of a key after the sweep.
  abbrev pub spare : K → Option V → Option V
  spare k none = none
  spare k (some v) = if p k v then none else some v

  listed : List (K × A) → K → Bool
  listed [] j = false
  listed ((k, a) ∷ es) j = (k == j) || listed es j

  forget_all-get :
      (es : List (K × A)) (t : Tables K V A) (j : K)
      → get j (forget_all es t).mappings ≡ (if listed es j then none else get j t.mappings)
  unfolding forget_all forget listed
  forget_all-get [] t j = refl
  forget_all-get ((k, a) ∷ es) t j =
      ground (arith, forget_all-get es (forget k a t) j, get-remove k j t.mappings)

  listed-none : (m : Map K V) (j : K) → get j m ≡ none → listed (entries_where m) j ≡ false
  unfolding listed entries_where get
  listed-none [] j h = refl
  listed-none ((k, v) ∷ m) j h = ground (arith, listed-none m j)

  listed-entries_where :
      (m : Map K V) (j : K)
      → IsUnique m
      → (if listed (entries_where m) j then none else get j m) ≡ spare j (get j m)
  unfolding listed entries_where get
  listed-entries_where [] j u = refl
  listed-entries_where ((k, v) ∷ m) j u =
      ground (arith, listed-entries_where m j u.1, listed-none m k u.0, e.beq_iff k j)

  keys-listed :
      (m : Map K V) (j : K) → any (λ k. k == j) (keys_where m) ≡ listed (entries_where m) j
  unfolding listed entries_where keys_where
  keys-listed [] j = refl
  keys-listed ((k, v) ∷ m) j = ground (arith, keys-listed m j)

  forget_key-get :
      (k : K) (t : Tables K V A) (j : K)
      → get j (forget_key k t).mappings ≡ (if k == j then none else get j t.mappings)
  unfolding forget_key forget
  forget_key-get k t j = ground (arith, get-remove k j t.mappings, e.beq_iff k j)

  forget_keys-get :
      (ks : List K) (t : Tables K V A) (j : K)
      → get j (forget_keys ks t).mappings
        ≡ (if any (λ k. k == j) ks then none else get j t.mappings)
  unfolding forget_keys
  forget_keys-get [] t j = refl
  forget_keys-get (k ∷ ks) t j =
      rw (forget_keys-get ks (forget_key k t) j, forget_key-get k t j) (ground arith)

  forget_keys-Inverse :
      (ks : List K) (t : Tables K V A) → Inverse address t → Inverse address (forget_keys ks t)
  unfolding forget_keys forget_key
  forget_keys-Inverse [] t i = i
  forget_keys-Inverse (k ∷ ks) t i = elim (Option-cases (get k t.mappings)) [
    | inl h ↦ forget_keys-Inverse ks (forget_key k t) (rw (h, forget_key) i)
    | inr (v, h) ↦ forget_keys-Inverse ks (forget_key k t) (
        rw (h, forget_key)
          (forget-Inverse address k (address v) t i (entry-Paired address t k v i h)))
  ]

  entries-AllPaired :
      (m : Map K V) (t : Tables K V A)
      → ((k : K) (v : V) → get k m ≡ some v → get k t.mappings ≡ some v)
      → IsUnique m
      → Inverse address t
      → AllPaired address (entries_where m) t
  unfolding entries_where get
  entries-AllPaired [] t sub u i = tt
  entries-AllPaired ((k, v) ∷ m) t sub u i =
      let rest : AllPaired address (entries_where m) t =
        entries-AllPaired m t (λ j w h. sub j w (ground (arith, e.beq_iff k j))) u.1 i in
      let pair = entry-Paired address t k v i (sub k v (ground (arith, e.beq_iff k k))) in
      elim (Bool-cases (p k v)) [ inl h ↦ rw h (pair, rest) | inr h ↦ rw h rest ]

  length-forget_key-le :
      (k : K) (t : Tables K V A) → length (forget_key k t).mappings ≤ length t.mappings
  unfolding forget_key forget
  length-forget_key-le k t = ground (arith, length-remove-le k t.mappings)

  -- Removing the listed entries, or the listed keys, keeps the maps inverse to each other.
  pub sweep-Inverse :
      (t : Tables K V A)
      → Inverse address t
      → Inverse address (forget_all (entries_where t.mappings) t)
        × Inverse address (forget_keys (keys_where t.mappings) t)
  sweep-Inverse t i = (
    forget_all-Inverse address (entries_where t.mappings) t i
        (entries-AllPaired t.mappings t (λ k v h. h) i.unique i),
    forget_keys-Inverse (keys_where t.mappings) t i,
  )

  -- Both remove the entries that pass the test, and no others.
  pub sweep-get :
      (t : Tables K V A) (j : K)
      → Inverse address t
      → (get j (forget_all (entries_where t.mappings) t).mappings ≡ spare j (get j t.mappings))
        × (get j (forget_keys (keys_where t.mappings) t).mappings ≡ spare j (get j t.mappings))
  sweep-get t j i = (
    forget_all-get (entries_where t.mappings) t j ∙ listed-entries_where t.mappings j i.unique,
    forget_keys-get (keys_where t.mappings) t j
        ∙ rw (keys-listed t.mappings j) (listed-entries_where t.mappings j i.unique),
  )

  pub length-forget_all-le :
      (es : List (K × A)) (t : Tables K V A) → length (forget_all es t).mappings ≤ length t.mappings
  unfolding forget_all forget
  length-forget_all-le [] t = omega arith
  length-forget_all-le ((k, a) ∷ es) t =
      omega (arith, length-forget_all-le es (forget k a t), length-remove-le k t.mappings)

  pub length-forget_keys-le :
      (ks : List K) (t : Tables K V A) → length (forget_keys ks t).mappings ≤ length t.mappings
  unfolding forget_keys
  length-forget_keys-le [] t = omega arith
  length-forget_keys-le (k ∷ ks) t =
      omega (arith, length-forget_keys-le ks (forget_key k t), length-forget_key-le k t)
