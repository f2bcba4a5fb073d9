-- ===== src/Base/Lists.antt =====
-- Lists over the native numbers: length, and the predicates of lists that invariants use.
use Prim.Native.Nat.{ℕ, zero, suc, ◌+◌, ◌≤◌}
use mathlib.Core.Path.{◌≡◌, refl, ap}
use mathlib.Core.Logic.{◌≢◌}
use mathlib.Core.List.{List, [], ◌∷◌, ◌++◌}
use native.Mathlib.Omega.{arith}

module _ {ℓ} {A : Type ℓ} where
  abbrev pub length : List A → ℕ
  length [] = 0
  length (x ∷ xs) = suc (length xs)

  abbrev pub take : ℕ → List A → List A
  take zero xs = []
  take (suc n) [] = []
  take (suc n) (x ∷ xs) = x ∷ take n xs

  abbrev pub drop : ℕ → List A → List A
  drop zero xs = xs
  drop (suc n) [] = []
  drop (suc n) (x ∷ xs) = drop n xs

  pub take-drop : (n : ℕ) (xs : List A) → xs ≡ take n xs ++ drop n xs
  take-drop zero xs = refl
  take-drop (suc n) [] = refl
  take-drop (suc n) (x ∷ xs) = ap (λ ys. x ∷ ys) (take-drop n xs)

  pub length-append : (xs ys : List A) → length (xs ++ ys) ≡ length xs + length ys
  length-append [] ys = omega arith
  length-append (x ∷ xs) ys = omega (arith, length-append xs ys)

  pub length-take-le : (n : ℕ) (xs : List A) → length (take n xs) ≤ n
  length-take-le zero xs = omega arith
  length-take-le (suc n) [] = omega arith
  length-take-le (suc n) (x ∷ xs) = omega (arith, length-take-le n xs)

  pub length-take : (n : ℕ) (xs : List A) → n ≤ length xs → length (take n xs) ≡ n
  length-take zero xs h = refl
  length-take (suc n) [] h = absurd (omega arith)
  length-take (suc n) (x ∷ xs) h = omega (arith, length-take n xs)

-- A predicate of every item, and lists without a repeated item.
module _ {ℓ κ} {A : Type ℓ} where
  abbrev pub All : (A → Type κ) → List A → Type κ
  All P [] = Unit
  All P (x ∷ xs) = P x × All P xs

  pub All-append : (P : A → Type κ) (xs ys : List A) → All P xs → All P ys → All P (xs ++ ys)
  All-append P [] ys h k = k
  All-append P (x ∷ xs) ys h k = (h.0, All-append P xs ys h.1 k)

  pub All-left : (P : A → Type κ) (xs ys : List A) → All P (xs ++ ys) → All P xs
  All-left P [] ys h = tt
  All-left P (x ∷ xs) ys h = (h.0, All-left P xs ys h.1)

  pub All-right : (P : A → Type κ) (xs ys : List A) → All P (xs ++ ys) → All P ys
  All-right P [] ys h = h
  All-right P (x ∷ xs) ys h = All-right P xs ys h.1

module _ {ℓ κ} {A : Type ℓ} where
  pub All-map : (P Q : A → Type κ) (xs : List A) → ((x : A) → P x → Q x) → All P xs → All Q xs
  All-map P Q [] f h = tt
  All-map P Q (x ∷ xs) f h = (f x h.0, All-map P Q xs f h.1)

module _ {ℓ} {A : Type ℓ} where
  abbrev pub Distinct : List A → Type ℓ
  Distinct [] = Unit
  Distinct (x ∷ xs) = All (λ y. x ≢ y) xs × Distinct xs

  pub Distinct-snoc :
      (xs : List A) (x : A) → Distinct xs → All (λ y. y ≢ x) xs → Distinct (xs ++ x ∷ [])
  Distinct-snoc [] x d h = (tt, tt)
  Distinct-snoc (y ∷ xs) x d h =
      (All-append (λ z. y ≢ z) xs (x ∷ []) d.0 (h.0, tt), Distinct-snoc xs x d.1 h.1)

  -- An item in the middle of a list without repetitions is neither before nor behind itself.
  pub Distinct-before :
      (xs : List A) (x : A) (ys : List A) → Distinct (xs ++ x ∷ ys) → All (λ y. y ≢ x) xs
  Distinct-before [] x ys d = tt
  Distinct-before (y ∷ xs) x ys d =
      ((All-right (λ z. y ≢ z) xs (x ∷ ys) d.0).0, Distinct-before xs x ys d.1)

  pub Distinct-right : (xs ys : List A) → Distinct (xs ++ ys) → Distinct ys
  Distinct-right [] ys d = d
  Distinct-right (x ∷ xs) ys d = Distinct-right xs ys d.1

  pub Distinct-left : (xs ys : List A) → Distinct (xs ++ ys) → Distinct xs
  Distinct-left [] ys d = tt
  Distinct-left (x ∷ xs) ys d = (All-left (λ y. x ≢ y) xs ys d.0, Distinct-left xs ys d.1)

-- Each item stands in a relation to every later one.
module _ {ℓ κ} {A : Type ℓ} where
  abbrev pub Pairwise : (A → A → Type κ) → List A → Type κ
  Pairwise R [] = Unit
  Pairwise R (x ∷ xs) = All (R x) xs × Pairwise R xs

  pub Pairwise-snoc :
      (R : A → A → Type κ) (xs : List A) (x : A)
      → Pairwise R xs
      → All (λ y. R y x) xs
      → Pairwise R (xs ++ x ∷ [])
  Pairwise-snoc R [] x d h = (tt, tt)
  Pairwise-snoc R (y ∷ xs) x d h =
      (All-append (R y) xs (x ∷ []) d.0 (h.0, tt), Pairwise-snoc R xs x d.1 h.1)
