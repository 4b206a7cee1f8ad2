-- ===== src/Base/Lists.antt =====
-- Lists measured and indexed by native numbers, under the library's names (Rust's slices).
use Prim.Native.Nat.{ℕ, zero, suc, ◌+◌, ◌-◌, ◌≤◌, ◌<◌, min}
use mathlib.Core.Path.{◌≡◌, refl, sym, ap, ◌∙◌}
use mathlib.Core.List.{List, [], ◌∷◌, ◌++◌}
use mathlib.Core.Bool.{Bool, true, false, ◌&&◌, ◌||◌}
use mathlib.Core.Option.{Option, none, some}
use native.Mathlib.Omega.{arith}
use real_layer.Base.Results.{Result, Fault, ok, panic, ok_or, ◌>>=◌}

module _ {ℓ} {A : Type ℓ} where
  abbrev pub length : List A → ℕ
  length [] = 0
  length (x ∷ xs) = suc (length xs)

  abbrev pub get_elem? : List A → ℕ → Option A
  get_elem? [] i = none
  get_elem? (x ∷ xs) zero = some x
  get_elem? (x ∷ xs) (suc i) = get_elem? xs i

  abbrev pub take : ℕ → List A → List A
  take zero xs = []
  take (suc n) [] = []
  take (suc n) (x ∷ xs) = x ∷ take n xs

  abbrev pub drop : ℕ → List A → List A
  drop zero xs = xs
  drop (suc n) [] = []
  drop (suc n) (x ∷ xs) = drop n xs

  abbrev pub replicate : ℕ → A → List A
  replicate zero a = []
  replicate (suc n) a = a ∷ replicate n a

  abbrev pub all : (A → Bool) → List A → Bool
  all p [] = true
  all p (x ∷ xs) = p x && all p xs

  abbrev pub any : (A → Bool) → List A → Bool
  any p [] = false
  any p (x ∷ xs) = p x || any p xs

  pub length-append : (xs ys : List A) → length (xs ++ ys) ≡ length xs + length ys
  length-append [] ys = omega arith
  length-append (x ∷ xs) ys = omega (arith, length-append xs ys)

  pub take-append_length : (xs ys : List A) → take (length xs) (xs ++ ys) ≡ xs
  take-append_length [] ys = refl
  take-append_length (x ∷ xs) ys = rw (take-append_length xs ys)

  pub drop-append_length : (xs ys : List A) → drop (length xs) (xs ++ ys) ≡ ys
  drop-append_length [] ys = refl
  drop-append_length (x ∷ xs) ys = drop-append_length xs ys

  pub drop-append : (n : ℕ) (xs ys : List A) → n ≡ length xs → drop n (xs ++ ys) ≡ ys
  drop-append n xs ys h = rw h (drop-append_length xs ys)

  pub take-append : (n : ℕ) (xs ys : List A) → n ≡ length xs → take n (xs ++ ys) ≡ xs
  take-append n xs ys h = rw h (take-append_length xs ys)

  pub length-drop : (n : ℕ) (xs : List A) → length (drop n xs) ≡ length xs - n
  length-drop zero xs = omega arith
  length-drop (suc n) [] = omega arith
  length-drop (suc n) (x ∷ xs) = omega (arith, length-drop n xs)

  pub length-take : (n : ℕ) (xs : List A) → length (take n xs) ≡ min n (length xs)
  length-take zero xs = omega arith
  length-take (suc n) [] = omega arith
  length-take (suc n) (x ∷ xs) = omega (arith, length-take n xs)

  pub take-append-drop : (n : ℕ) (xs : List A) → take n xs ++ drop n xs ≡ xs
  take-append-drop zero xs = refl
  take-append-drop (suc n) [] = refl
  take-append-drop (suc n) (x ∷ xs) = rw (take-append-drop n xs)

  pub drop-drop : (n m k : ℕ) (xs : List A) → k ≡ m + n → drop n (drop m xs) ≡ drop k xs
  drop-drop n zero k xs h = ap (λ i. drop i xs) (omega arith)
  drop-drop zero (suc m) zero xs h = absurd (omega arith)
  drop-drop (suc n) (suc m) zero xs h = absurd (omega arith)
  drop-drop zero (suc m) (suc k) [] h = refl
  drop-drop (suc n) (suc m) (suc k) [] h = refl
  drop-drop n (suc m) (suc k) (x ∷ xs) h = drop-drop n m k xs (omega arith)

  pub drop-all : (n : ℕ) (xs : List A) → get_elem? xs n ≡ none → drop n xs ≡ []
  drop-all zero [] h = refl
  drop-all (suc n) [] h = refl
  drop-all zero (x ∷ xs) h = ground arith
  drop-all (suc n) (x ∷ xs) h = drop-all n xs h

  pub get_elem?-append :
      (xs ys : List A) (i n : ℕ) → n ≡ length xs + i → get_elem? (xs ++ ys) n ≡ get_elem? ys i
  get_elem?-append [] ys i n h = ap (get_elem? ys) (omega arith)
  get_elem?-append (x ∷ xs) ys i zero h = absurd (omega arith)
  get_elem?-append (x ∷ xs) ys i (suc n) h = get_elem?-append xs ys i n (omega arith)

  pub get_elem?-drop :
      (xs ys : List A) (n i k : ℕ) → drop n xs ≡ ys → k ≡ n + i → get_elem? xs k ≡ get_elem? ys i
  get_elem?-drop xs ys zero i k h e = rw h (ap (get_elem? ys) (omega arith))
  get_elem?-drop xs ys (suc n) i zero h e = absurd (omega arith)
  get_elem?-drop [] ys (suc n) i (suc k) h e = rw (sym h)
  get_elem?-drop (x ∷ xs) ys (suc n) i (suc k) h e = get_elem?-drop xs ys n i k h (omega arith)

  pub take-all : (n : ℕ) (xs : List A) → length xs ≤ n → take n xs ≡ xs
  take-all zero [] h = refl
  take-all (suc n) [] h = refl
  take-all zero (x ∷ xs) h = absurd (omega arith)
  take-all (suc n) (x ∷ xs) h = rw (take-all n xs (omega arith))

  -- An index in bounds finds an element.
  pub get_elem?-some : (xs : List A) (i : ℕ) → i < length xs → (a : A) × (get_elem? xs i ≡ some a)
  get_elem?-some [] i h = elim h [ ]
  get_elem?-some (x ∷ xs) zero h = (x, refl)
  get_elem?-some (x ∷ xs) (suc i) h = get_elem?-some xs i (omega arith)

  pub drop_cons :
      (xs : List A) (i : ℕ) {a : A} → get_elem? xs i ≡ some a → drop i xs ≡ a ∷ drop (suc i) xs
  drop_cons [] i h = ground arith
  drop_cons (x ∷ xs) zero h = ground arith
  drop_cons (x ∷ xs) (suc i) h = drop_cons xs i h

  pub drop_next :
      (xs : List A) (i k : ℕ) {a : A}
      → get_elem? xs i ≡ some a
      → k ≡ i + 1
      → drop i xs ≡ a ∷ drop k xs
  drop_next xs i k {a} h e = drop_cons xs i h ∙ rw (next e)
    where
      next : k ≡ i + 1 → suc i ≡ k
      next e = omega arith

-- `xs[i]`, which panics out of bounds.
abbrev pub index {ℓ κ} : {E : Type ℓ} {A : Type κ} → List A → ℕ → Result (Fault E) A
index xs i = ok_or (get_elem? xs i) panic

pub index_ok {ℓ κ μ} :
    {E : Type ℓ} {A : Type κ} {B : Type μ} (xs : List A) (i : ℕ) (f : A → Result (Fault E) B)
    {b : B}
    → (index xs i >>= f) ≡ ok b
    → (a : A) × (get_elem? xs i ≡ some a) × (f a ≡ ok b)
index_ok [] i f h = absurd (ground arith)
index_ok (x ∷ xs) zero f h = (x, refl, h)
index_ok (x ∷ xs) (suc i) f h = index_ok xs i f h
