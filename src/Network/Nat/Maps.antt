-- ===== src/Network/Nat/Maps.antt =====
-- Two maps, from keys to values and from the values' addresses back to the keys, and the removal of
-- entries from both.
use real_layer.Base.{
  ◌≡◌, sym, ◌∙◌, List, [], ◌∷◌, none, some, arith, Eq, ◌==◌, Bool-cases, inl, inr,
}
use real_layer.Base.Map.{
  Map, IsUnique, get, insert, remove, get-remove-some, get-remove_ne, get-insert, remove-IsUnique,
  insert-IsUnique,
}

pub record Tables {ℓ} (K V A : Type ℓ) : Type ℓ where
  pub mappings : Map K V
  pub reverse : Map A K

module _ {ℓ} {K V A : Type ℓ} ⦃e : Eq K⦄ ⦃d : Eq A⦄ where
  -- `mappings.remove(&key); reverse.remove(&address);`
  unfoldable pub forget : K → A → Tables K V A → Tables K V A
  forget k a t = record { mappings = remove k t.mappings; reverse = remove a t.reverse }

  -- `for (key, address) in entries { … }`
  unfoldable pub forget_all : List (K × A) → Tables K V A → Tables K V A
  forget_all [] t = t
  forget_all ((k, a) ∷ entries) t = forget_all entries (forget k a t)

module _ {ℓ} {K V A : Type ℓ} ⦃e : Eq K⦄ ⦃d : Eq A⦄ (address : V → A) where
  -- The maps are inverse to each other.
  pub record Inverse (t : Tables K V A) : Type ℓ where
    pub unique : IsUnique t.mappings
    pub unique_reverse : IsUnique t.reverse
    pub forth : (k : K) (v : V) → get k t.mappings ≡ some v → get (address v) t.reverse ≡ some k
    pub back :
        (a : A) (k : K)
        → get a t.reverse ≡ some k
        → (v : V) × (get k t.mappings ≡ some v) × (address v ≡ a)

  -- Neither map knows `k` or `a` but with the other.
  pub record Paired (k : K) (a : A) (t : Tables K V A) : Type ℓ where
    pub at_key : (v : V) → get k t.mappings ≡ some v → address v ≡ a
    pub at_address : (j : K) → get a t.reverse ≡ some j → j ≡ k

  pub forget-Inverse :
      (k : K) (a : A) (t : Tables K V A) → Inverse t → Paired k a t → Inverse (forget k a t)
  unfolding forget
  forget-Inverse k a t i p = record {
    unique = remove-IsUnique k t.mappings i.unique;
    unique_reverse = remove-IsUnique a t.reverse i.unique_reverse;
    forth = λ j v h.
        let (ne, h') = get-remove-some k j v t.mappings h in
        get-remove_ne a (address v) j t.reverse
          (λ same. ne (sym (p.at_address j (rw same (i.forth j v h'))))) (i.forth j v h');
    back = λ b j h.
        let (ne, h') = get-remove-some a b j t.reverse h in
        let (v, found, at) = i.back b j h' in
        (
          v,
          get-remove_ne k j v t.mappings (λ same. ne (sym (p.at_key v (rw same found)) ∙ at)) found,
          at,
        );
  }

  -- Forgetting one entry leaves every pair a pair.
  forget-Paired : (k j : K) (a b : A) (t : Tables K V A) → Paired j b t → Paired j b (forget k a t)
  unfolding forget
  forget-Paired k j a b t p = record {
    at_key = λ v h. p.at_key v (get-remove-some k j v t.mappings h).1;
    at_address = λ i h. p.at_address i (get-remove-some a b i t.reverse h).1;
  }

  abbrev pub AllPaired : List (K × A) → Tables K V A → Type ℓ
  AllPaired [] t = Unit
  AllPaired ((k, a) ∷ entries) t = Paired k a t × AllPaired entries t

  forget-AllPaired :
      (entries : List (K × A)) (k : K) (a : A) (t : Tables K V A)
      → AllPaired entries t
      → AllPaired entries (forget k a t)
  forget-AllPaired [] k a t h = tt
  forget-AllPaired ((j, b) ∷ entries) k a t h =
      (forget-Paired k j a b t h.0, forget-AllPaired entries k a t h.1)

  pub forget_all-Inverse :
      (entries : List (K × A)) (t : Tables K V A)
      → Inverse t
      → AllPaired entries t
      → Inverse (forget_all entries t)
  unfolding forget_all
  forget_all-Inverse [] t i h = i
  forget_all-Inverse ((k, a) ∷ entries) t i h =
      forget_all-Inverse entries (forget k a t) (forget-Inverse k a t i h.0)
        (forget-AllPaired entries k a t h.1)

  -- An entry of an inverse table is a pair.
  pub entry-Paired :
      (t : Tables K V A) (k : K) (v : V)
      → Inverse t
      → get k t.mappings ≡ some v
      → Paired k (address v) t
  entry-Paired t k v i h = record {
    at_key = λ w found. ground arith;
    at_address = λ j found. ground (arith, i.forth k v h);
  }

  -- A new key under an unused address.
  pub add-Inverse :
      (t : Tables K V A) (k : K) (v : V)
      → Inverse t
      → get k t.mappings ≡ none
      → get (address v) t.reverse ≡ none
      → Inverse
          (record { mappings = insert k v t.mappings; reverse = insert (address v) k t.reverse })
  add-Inverse t k v i new unused = record {
    unique = insert-IsUnique k v t.mappings i.unique;
    unique_reverse = insert-IsUnique (address v) k t.reverse i.unique_reverse;
    forth = λ j w h. ground (
      arith,
      get-insert k j v t.mappings,
      get-insert (address v) (address w) k t.reverse,
      e.beq_iff k j,
      d.beq_iff (address v) (address w),
      i.forth j w,
    );
    back = λ b j h. elim (Bool-cases (address v == b)) [
      | inl same ↦ (
        v,
        ground (
          arith,
          get-insert (address v) b k t.reverse,
          get-insert k j v t.mappings,
          e.beq_iff k j,
        ),
        (d.beq_iff (address v) b).0 same,
      )
      | inr other ↦
          let (w, found, at) = i.back b j (ground (arith, get-insert (address v) b k t.reverse)) in
          (w, ground (arith, get-insert k j v t.mappings, e.beq_iff k j), at)
    ];
  }
