-- ===== src/Base/Lists.antt =====
-- Vectors of the program (std::vector) as lists that are measured and indexed by native numbers.
use Prim.Native.Nat.{ℕ, zero, suc, ◌+◌, ◌-◌, ◌<◌, ◌≤◌, min}
use mathlib.Core.Path.{◌≡◌, refl, ap}
use mathlib.Core.List.{List, [], ◌∷◌, ◌++◌, map}
use mathlib.Core.Option.{Option, none, some}
use native.Mathlib.Omega.{arith}

module _ {ℓ} {A : Type ℓ} where
  abbrev pub length : List A → ℕ
  length [] = 0
  length (x ∷ xs) = suc (length xs)

  abbrev pub get_elem? : List A → ℕ → Option A
  get_elem? [] i = none
  get_elem? (x ∷ xs) zero = some x
  get_elem? (x ∷ xs) (suc i) = get_elem? xs i

  abbrev pub take : ℕ → List A → List A
  take zero xs = []
  take (suc n) [] = []
  take (suc n) (x ∷ xs) = x ∷ take n xs

  abbrev pub drop : ℕ → List A → List A
  drop zero xs = xs
  drop (suc n) [] = []
  drop (suc n) (x ∷ xs) = drop n xs

  abbrev pub All {κ} : (A → Type κ) → List A → Type κ
  All P [] = Unit {κ}
  All P (x ∷ xs) = P x × All P xs

module _ {ℓ} {A : Type ℓ} where
  pub length-append : (xs ys : List A) → length (xs ++ ys) ≡ length xs + length ys
  length-append [] ys = omega arith
  length-append (x ∷ xs) ys = omega (arith, length-append xs ys)

  pub take-append : (xs ys : List A) → take (length xs) (xs ++ ys) ≡ xs
  take-append [] ys = refl
  take-append (x ∷ xs) ys = rw (take-append xs ys)

  pub drop-append : (xs ys : List A) → drop (length xs) (xs ++ ys) ≡ ys
  drop-append [] ys = refl
  drop-append (x ∷ xs) ys = drop-append xs ys

  pub length-take : (n : ℕ) (xs : List A) → length (take n xs) ≡ min n (length xs)
  length-take zero xs = omega arith
  length-take (suc n) [] = omega arith
  length-take (suc n) (x ∷ xs) = omega (arith, length-take n xs)

  pub length-drop : (n : ℕ) (xs : List A) → length (drop n xs) ≡ length xs - n
  length-drop zero xs = omega arith
  length-drop (suc n) [] = omega arith
  length-drop (suc n) (x ∷ xs) = omega (arith, length-drop n xs)

  -- The elements of a list with one more at its end.
  pub get_elem?-snoc :
      (xs : List A) (x : A) (i : ℕ) → i < length xs → get_elem? (xs ++ (x ∷ [])) i ≡ get_elem? xs i
  get_elem?-snoc [] x i h = absurd (omega arith)
  get_elem?-snoc (y ∷ xs) x zero h = refl
  get_elem?-snoc (y ∷ xs) x (suc i) h = get_elem?-snoc xs x i (omega arith)

  pub get_elem?-last : (xs : List A) (x : A) → get_elem? (xs ++ (x ∷ [])) (length xs) ≡ some x
  get_elem?-last [] x = refl
  get_elem?-last (y ∷ xs) x = get_elem?-last xs x

  pub get_elem?-lt : (xs : List A) (i : ℕ) {x : A} → get_elem? xs i ≡ some x → i < length xs
  get_elem?-lt [] i h = cc
  get_elem?-lt (y ∷ xs) zero h = omega arith
  get_elem?-lt (y ∷ xs) (suc i) h = omega (arith, get_elem?-lt xs i h)

  pub get_elem?-ge : (xs : List A) (i : ℕ) → length xs ≤ i → get_elem? xs i ≡ none
  get_elem?-ge [] i h = refl
  get_elem?-ge (y ∷ xs) zero h = absurd (omega arith)
  get_elem?-ge (y ∷ xs) (suc i) h = get_elem?-ge xs i (omega arith)

  pub get_elem?-take :
      (n : ℕ) (xs : List A) (i : ℕ) {x : A}
      → get_elem? (take n xs) i ≡ some x
      → get_elem? xs i ≡ some x
  get_elem?-take zero xs i h = cc
  get_elem?-take (suc n) [] i h = cc
  get_elem?-take (suc n) (y ∷ xs) zero h = h
  get_elem?-take (suc n) (y ∷ xs) (suc i) h = get_elem?-take n xs i h

  pub drop-cons :
      (n : ℕ) (xs : List A) {x : A} → get_elem? xs n ≡ some x → drop n xs ≡ x ∷ drop (suc n) xs
  drop-cons n [] h = cc
  drop-cons zero (y ∷ xs) h = cc
  drop-cons (suc n) (y ∷ xs) h = drop-cons n xs h

module _ {ℓ κ} {A : Type ℓ} {B : Type κ} where
  pub map-snoc : (f : A → B) (xs : List A) (x : A) → map f (xs ++ (x ∷ [])) ≡ map f xs ++ (f x ∷ [])
  map-snoc f [] x = refl
  map-snoc f (y ∷ xs) x = ap (λ l. f y ∷ l) (map-snoc f xs x)

  pub length-map : (f : A → B) (xs : List A) → length (map f xs) ≡ length xs
  length-map f [] = refl
  length-map f (x ∷ xs) = ap suc (length-map f xs)
