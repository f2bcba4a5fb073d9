-- ===== src/Api/Captures/Removals.antt =====
-- Removals of rows by a test, one after another.
use dreamscroll.Base.{
  ◌≡◌, refl, ap, Bool, true, false, ◌&&◌, List, [], ◌∷◌, inl, inr, ◌==◌, Bool-cases, All,
}
use dreamscroll.Base.Words.{I32}
use dreamscroll.Api.Captures.{remove}

-- Items that one removal would take anyway.
pub remove_twice :
    {A : Type 0} (p q : A → Bool) (xs : List A)
    → All (λ x. q x ≡ true → p x ≡ true) xs
    → remove p (remove q xs) ≡ remove p xs
unfolding remove
remove_twice p q [] h = refl
remove_twice p q (x ∷ xs) h = elim (Bool-cases (q x)) [
  | inl gone ↦ rw gone (rw (h.0 gone) (remove_twice p q xs h.1))
  | inr stays ↦ rw stays (elim (Bool-cases (p x)) [
    | inl own ↦ rw own (remove_twice p q xs h.1)
    | inr foreign ↦ rw foreign (ap (λ ys. x ∷ ys) (remove_twice p q xs h.1))
  ])
]

pub All-all : {A : Type 0} (P : A → Type 0) (xs : List A) → ((x : A) → P x) → All P xs
All-all P [] h = tt
All-all P (x ∷ xs) h = (h x, All-all P xs h)

pub All-remove :
    {A : Type 0} (P : A → Type 0) (p : A → Bool) (xs : List A) → All P xs → All P (remove p xs)
unfolding remove
All-remove P p [] h = tt
All-remove P p (x ∷ xs) h = elim (Bool-cases (p x)) [
  | inl gone ↦ rw gone (All-remove P p xs h.1)
  | inr stays ↦ rw stays (h.0, All-remove P p xs h.1)
]

pub right_true : (a b : Bool) → (a && b) ≡ true → b ≡ true
right_true true b h = h
right_true false b h = cc

pub left_true : (a b : Bool) → (a && b) ≡ true → a ≡ true
left_true true b h = refl
left_true false b h = cc

-- Rows of a user's capture are the user's.
pub remove_own :
    {A : Type 0} (user_of capture_of : A → I32) (user capture_id : I32) (xs : List A)
    → remove
        (λ r. user_of r == user)
        (remove (λ r. user_of r == user && capture_of r == capture_id) xs)
      ≡ remove (λ r. user_of r == user) xs
remove_own user_of capture_of user capture_id xs =
    remove_twice (λ r. user_of r == user) (λ r. user_of r == user && capture_of r == capture_id) xs
      (All-all
        (λ r. (user_of r == user && capture_of r == capture_id) ≡ true → (user_of r == user) ≡ true)
        xs (λ r. left_true (user_of r == user) (capture_of r == capture_id)))
