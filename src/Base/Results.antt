-- ===== src/Base/Results.antt =====
-- Results of fallible code, and code that passes a state on and may fail. A state that an operation
-- reached before its error stays.
use mathlib.Core.Path.{◌≡◌, refl}
use mathlib.Core.Logic.{◌⊎◌, inl, inr}
use mathlib.Core.Option.{Option, none, some}

pub data Result {ℓ} (E A : Type ℓ) : Type ℓ where
  ok : A → Result E A
  err : E → Result E A

abbrev pub map_err {ℓ} : {E F A : Type ℓ} → (E → F) → Result E A → Result F A
map_err f (ok a) = ok a
map_err f (err e) = err (f e)

pub Result-cases :
    {E A : Type 0} (r : Result E A) → ((a : A) × (r ≡ ok a)) ⊎ ((e : E) × (r ≡ err e))
Result-cases (ok a) = inl (a, refl)
Result-cases (err e) = inr (e, refl)

abbrev pub and_then {ℓ} : {E A B : Type ℓ} → Result E A → (A → Result E B) → Result E B
and_then (ok a) f = f a
and_then (err e) f = err e

abbrev pub ok_or {ℓ} : {E A : Type ℓ} → E → Option A → Result E A
ok_or e none = err e
ok_or e (some a) = ok a

abbrev pub Exec : Type 0 → Type 0 → Type 0 → Type 0
Exec S E A = S → Result E A × S

module _ {S E A : Type 0} where
  unfoldable pub pure : A → Exec S E A
  pure a s = (ok a, s)

  unfoldable pub raise : E → Exec S E A
  raise e s = (err e, s)

  unfoldable pub lift : Result E A → Exec S E A
  lift r s = (r, s)

module _ {S E A B : Type 0} where
  abbrev pub continue : Result E A × S → (A → Exec S E B) → Result E B × S
  continue (ok a, s) f = f a s
  continue (err e, s) f = (err e, s)

  infixl 10 ◌>>=◌ ◌>>◌
  abbrev pub ◌>>=◌ : Exec S E A → (A → Exec S E B) → Exec S E B
  ◌>>=◌ m f s = continue (m s) f

  abbrev pub ◌>>◌ : Exec S E A → Exec S E B → Exec S E B
  m >> n = m >>= λ _. n

module _ {S E F A : Type 0} where
  abbrev pub convert : (E → F) → Result E A × S → Result F A × S
  convert f (r, s) = (map_err f r, s)

-- A bind whose first part is known to have succeeded or failed.
module _ {S E A B : Type 0} (f : A → Exec S E B) where
  pub continue-ok : (x : Result E A × S) (a : A) → x.0 ≡ ok a → continue x f ≡ f a x.1
  continue-ok (ok b, s) a h = cc
  continue-ok (err e, s) a h = cc

  pub continue-err : (x : Result E A × S) (e : E) → x.0 ≡ err e → (continue x f).0 ≡ err e
  continue-err (ok b, s) e h = cc
  continue-err (err d, s) e h = cc

  -- A bind that succeeds has a first part that did.
  pub continue-inv :
      (x : Result E A × S) (b : B)
      → (continue x f).0 ≡ ok b
      → (a : A) × (x.0 ≡ ok a) × (continue x f ≡ f a x.1)
  continue-inv (ok a, s) b h = (a, refl, refl)
  continue-inv (err e, s) b h = cc

-- A conversion of the error keeps the results.
pub convert-inv :
    {S E F A : Type 0} (f : E → F) (x : Result E A × S) (a : A)
    → (convert f x).0 ≡ ok a
    → x.0 ≡ ok a
convert-inv f (ok b, s) a h = cong_ok h
  where
    cong_ok :
        {B C D : Type 0} {b c : B}
        → ◌≡◌ {A = Result C B} (ok b) (ok c)
        → ◌≡◌ {A = Result D B} (ok b) (ok c)
    cong_ok e = cc
convert-inv f (err e, s) a h = cc

pub pure-inv : {S E A : Type 0} (s : S) (a b : A) → (pure {E = E} a s).0 ≡ ok b → a ≡ b
unfolding pure
pure-inv s a b h = cc
