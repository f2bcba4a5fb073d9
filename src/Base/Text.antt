-- ===== src/Base/Text.antt =====
-- Texts as lists of code points, with the Boolean test of `==` on them.
use Prim.Native.Nat.{ℕ}
use Prim.Native.Char.{code}
use Prim.Native.String.{String}
use mathlib.Core.Path.{◌≡◌, refl, sym, ap, ◌∙◌}
use mathlib.Core.Logic.{inl, inr}
use mathlib.Core.Bool.{Bool, true, false, ◌&&◌}
use mathlib.Core.Option.{Option, none, some}
use mathlib.Core.List.{List, [], ◌∷◌}
use native.Mathlib.Omega.{arith}
use dreamscroll.Base.Tests.{◌==◌, if◌then◌else◌, Bool-cases}

abbrev pub Text : Type 0
Text = List ℕ

-- The code points of a literal.
abbrev pub codes : String → Text
codes String.[] = []
codes (String.◌∷◌ c s) = code c ∷ codes s

unfoldable pub text_eq : Text → Text → Bool
text_eq [] [] = true
text_eq [] (d ∷ t) = false
text_eq (c ∷ s) [] = false
text_eq (c ∷ s) (d ∷ t) = c == d && text_eq s t

pub text_eq_refl : (s : Text) → text_eq s s ≡ true
unfolding text_eq
text_eq_refl [] = refl
text_eq_refl (c ∷ s) = ground (arith, text_eq_refl s)

pub text_eq→eq : (s t : Text) → text_eq s t ≡ true → s ≡ t
unfolding text_eq
text_eq→eq [] [] h = refl
text_eq→eq [] (d ∷ t) h = cc
text_eq→eq (c ∷ s) [] h = cc
text_eq→eq (c ∷ s) (d ∷ t) h = ground (arith, text_eq→eq s t)

pub eq→text_eq : (s t : Text) → s ≡ t → text_eq s t ≡ true
eq→text_eq s t h = (ap (text_eq s) (sym h)) ∙ text_eq_refl s

onto : ℕ → List Text → List Text
onto c [] = (c ∷ []) ∷ []
onto c (part ∷ parts) = (c ∷ part) ∷ parts

-- `str::split` at a character, and `str::strip_prefix`.
unfoldable pub split : ℕ → Text → List Text
unfolding onto
split at [] = [] ∷ []
split at (c ∷ s) = let parts = split at s in if c == at then [] ∷ parts else onto c parts

unfoldable pub strip_prefix : ℕ → Text → Option Text
strip_prefix p [] = none
strip_prefix p (c ∷ s) = if c == p then some s else none

-- There is always a part.
pub split-cons : (at : ℕ) (s : Text) → (p : Text) × (ps : List Text) × (split at s ≡ p ∷ ps)
unfolding split onto
split-cons at [] = ([], [], refl)
split-cons at (c ∷ s) = elim (Bool-cases (c == at)) [
  | inl e ↦ ([], split at s, rw e refl)
  | inr e ↦ let (p, ps, h) = split-cons at s in (c ∷ p, ps, rw e (rw h refl))
]
