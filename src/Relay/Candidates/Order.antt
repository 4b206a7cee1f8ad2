-- ===== src/Relay/Candidates/Order.antt =====
-- Sorting by a comparison: the result is in order, and has the same elements.
use Prim.Native.Nat.{Ordering}
use mathlib.Core.List.Perm
use mathlib.Core.List.{Perm}
use real_layer.Base.{
  ◌≡◌, ◌≢◌, List, [], ◌∷◌, Bool, true, false, arith, All, All-weaken, Bool-cases, inl, inr,
  if◌then◌else◌,
}
use real_layer.Relay.Candidates.{is_gt, insert_by, sort_by}

-- A comparison that orders: of two elements one is not greater, and this carries over.
pub record IsOrder {ℓ} {A : Type ℓ} (cmp : A → A → Ordering) : Type ℓ where
  pub total : (x y : A) → cmp x y ≡ Ordering.gt → cmp y x ≢ Ordering.gt
  pub trans : (x y z : A) → cmp x y ≢ Ordering.gt → cmp y z ≢ Ordering.gt → cmp x z ≢ Ordering.gt

module _ {ℓ} {A : Type ℓ} where
  -- Each element is not greater than those after it.
  abbrev pub IsSorted : (A → A → Ordering) → List A → Type ℓ
  IsSorted cmp [] = Unit
  IsSorted cmp (x ∷ xs) = All (λ y. cmp x y ≢ Ordering.gt) xs × IsSorted cmp xs

  All-insert_by {κ} :
      (p : A → Type κ) (cmp : A → A → Ordering) (x : A) (xs : List A)
      → p x
      → All p xs
      → All p (insert_by cmp x xs)
  unfolding insert_by
  All-insert_by p cmp x [] px h = (px, tt)
  All-insert_by p cmp x (y ∷ ys) px h = elim (Bool-cases (is_gt (cmp x y))) [
    | inl greater ↦ rw greater (h.0, All-insert_by p cmp x ys px h.1)
    | inr rest ↦ rw rest (px, h)
  ]

  pub All-sort_by {κ} :
      (p : A → Type κ) (cmp : A → A → Ordering) (xs : List A) → All p xs → All p (sort_by cmp xs)
  unfolding sort_by
  All-sort_by p cmp [] h = tt
  All-sort_by p cmp (x ∷ xs) h =
      All-insert_by p cmp x (sort_by cmp xs) h.0 (All-sort_by p cmp xs h.1)

  insert_by-All {κ} :
      (p : A → Type κ) (cmp : A → A → Ordering) (x : A) (xs : List A)
      → All p (insert_by cmp x xs)
      → p x × All p xs
  unfolding insert_by
  insert_by-All p cmp x [] h = h
  insert_by-All p cmp x (y ∷ ys) h = by_test (is_gt (cmp x y)) h (insert_by-All p cmp x ys)
    where
      by_test :
          (b : Bool)
          → All p (if b then y ∷ insert_by cmp x ys else x ∷ y ∷ ys)
          → (All p (insert_by cmp x ys) → p x × All p ys)
          → p x × All p (y ∷ ys)
      by_test true h rec = let (px, ps) = rec h.1 in (px, (h.0, ps))
      by_test false h rec = h

  pub sort_by-All {κ} :
      (p : A → Type κ) (cmp : A → A → Ordering) (xs : List A) → All p (sort_by cmp xs) → All p xs
  unfolding sort_by
  sort_by-All p cmp [] h = tt
  sort_by-All p cmp (x ∷ xs) h =
      let (px, ps) = insert_by-All p cmp x (sort_by cmp xs) h in (px, sort_by-All p cmp xs ps)

  insert_by-IsSorted :
      (cmp : A → A → Ordering) (o : IsOrder cmp) (x : A) (xs : List A)
      → IsSorted cmp xs
      → IsSorted cmp (insert_by cmp x xs)
  unfolding insert_by
  insert_by-IsSorted cmp o x [] h = (tt, tt)
  insert_by-IsSorted cmp o x (y ∷ ys) h = elim (Bool-cases (is_gt (cmp x y))) [
    | inl greater ↦ rw greater (
      All-insert_by (λ z. cmp y z ≢ Ordering.gt) cmp x ys (o.total x y (ground arith)) h.0,
      insert_by-IsSorted cmp o x ys h.1,
    )
    | inr rest ↦
        let first : cmp x y ≢ Ordering.gt = λ e. ground arith in
        rw rest ((first, All-weaken (λ z below. o.trans x y z first below) ys h.0), h)
  ]

  pub sort_by-IsSorted :
      (cmp : A → A → Ordering) → IsOrder cmp → (xs : List A) → IsSorted cmp (sort_by cmp xs)
  unfolding sort_by
  sort_by-IsSorted cmp o [] = tt
  sort_by-IsSorted cmp o (x ∷ xs) =
      insert_by-IsSorted cmp o x (sort_by cmp xs) (sort_by-IsSorted cmp o xs)

  insert_by-perm :
      (cmp : A → A → Ordering) (x : A) (xs : List A) → Perm (insert_by cmp x xs) (x ∷ xs)
  unfolding insert_by
  insert_by-perm cmp x [] = Perm.rfl
  insert_by-perm cmp x (y ∷ ys) = elim (Bool-cases (is_gt (cmp x y))) [
    | inl greater ↦
        rw greater (Perm.trans (Perm.cons y (insert_by-perm cmp x ys)) (Perm.swap x y ys))
    | inr rest ↦ rw rest Perm.rfl
  ]

  pub sort_by-perm : (cmp : A → A → Ordering) (xs : List A) → Perm (sort_by cmp xs) xs
  unfolding sort_by
  sort_by-perm cmp [] = Perm.rfl
  sort_by-perm cmp (x ∷ xs) =
      Perm.trans (insert_by-perm cmp x (sort_by cmp xs)) (Perm.cons x (sort_by-perm cmp xs))
