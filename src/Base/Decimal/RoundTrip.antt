-- ===== src/Base/Decimal/RoundTrip.antt =====
-- A printed `i32` is read back.
use Prim.Native.Nat.{ℕ, zero, suc, ◌+◌, ◌-◌, ◌*◌, ◌/◌, ◌%◌, ◌≤◌, ◌<◌}
use mathlib.Core.Path.{◌≡◌, refl, sym, ap, ◌∙◌}
use mathlib.Core.Bool.{true, false}
use mathlib.Core.Logic.{inl, inr}
use mathlib.Core.Option.{some}
use mathlib.Core.List.{[], ◌∷◌}
use native.Mathlib.Omega.{arith}
use dreamscroll.Base.Tests.{ltb, Bool-cases}
use dreamscroll.Base.Lists.{All}
use dreamscroll.Base.Words.{I32}
use dreamscroll.Base.Text.{Text}
use dreamscroll.Base.Decimal.{digits, show_i32, is_digit, scan, scan_digits, negated, parse_i32}

-- The numbers of at most `fuel` digits lie below this one.
pow10 : ℕ → ℕ
pow10 zero = 1
pow10 (suc fuel) = 10 * pow10 fuel

abbrev pub IsDigit : ℕ → Type 0
IsDigit c = (48 ≤ c) × (c ≤ 57)

pub digits-IsDigit :
    (fuel n : ℕ) (rest : Text) → All IsDigit rest → All IsDigit (digits fuel n rest)
unfolding digits
digits-IsDigit zero n rest h = h
digits-IsDigit (suc fuel) n rest h = elim (Bool-cases (ltb n 10)) [
  | inl small ↦ rw small (ground arith, h)
  | inr large ↦
      rw large (digits-IsDigit fuel (n / 10) ((48 + n % 10) ∷ rest) ((omega arith, omega arith), h))
]

scan_last :
    (limit n d : ℕ) (rest : Text)
    → d < 10
    → n * 10 + d ≤ limit
    → scan limit ((48 + d) ∷ rest) n ≡ scan limit rest (n * 10 + d)
unfolding scan is_digit
scan_last limit n d rest small fits = ground arith

scan-digits :
    (limit fuel n : ℕ) (rest : Text)
    → n < pow10 fuel
    → n ≤ limit
    → scan limit (digits fuel n rest) 0 ≡ scan limit rest n
unfolding digits pow10
scan-digits limit zero n rest h fits = ap (scan limit rest) (omega arith)
scan-digits limit (suc fuel) n rest h fits = elim (Bool-cases (ltb n 10)) [
  | inl small ↦
      rw small
        (scan_last limit 0 n rest (ground arith) (omega arith) ∙ ap (scan limit rest) (omega arith))
  | inr large ↦ rw large (
      scan-digits limit fuel (n / 10) ((48 + n % 10) ∷ rest) (omega arith) (omega arith)
      ∙ scan_last limit (n / 10) (n % 10) rest (omega arith) (omega arith)
      ∙ ap (scan limit rest) (omega arith))
]

pub digits-cons :
    (fuel n : ℕ) (rest : Text) → (c : ℕ) × (s : Text) × (digits (suc fuel) n rest ≡ c ∷ s)
unfolding digits
digits-cons zero n rest = elim (Bool-cases (ltb n 10)) [
  | inl small ↦ (48 + n, rest, rw small refl)
  | inr large ↦ (48 + n % 10, rest, rw large refl)
]
digits-cons (suc fuel) n rest = elim (Bool-cases (ltb n 10)) [
  | inl small ↦ (48 + n, rest, rw small refl)
  | inr large ↦ rw large (digits-cons fuel (n / 10) ((48 + n % 10) ∷ rest))
]

scan_digits-scan :
    (limit : ℕ) (t : Text) {c : ℕ} {s : Text} → t ≡ c ∷ s → scan_digits limit t ≡ scan limit t 0
unfolding scan_digits
scan_digits-scan limit [] h = cc
scan_digits-scan limit (c ∷ s) h = refl

scan_digits-digits :
    (limit n : ℕ) → n ≤ limit → n < 10000000000 → scan_digits limit (digits 10 n []) ≡ some n
unfolding scan pow10
scan_digits-digits limit n fits small =
    let (c, s, e) = digits-cons 9 n [] in
    scan_digits-scan limit (digits 10 n []) e ∙ scan-digits limit 10 n [] small fits

parse_unsigned :
    (t : Text)
    → All IsDigit t
    → (c : ℕ) (s : Text) → t ≡ c ∷ s
    → parse_i32 t ≡ scan_digits 2147483647 t
unfolding parse_i32
parse_unsigned [] h c s e = cc
parse_unsigned (d ∷ t) h c s e = ground arith

parse_signed : (t : Text) → parse_i32 (b'-' ∷ t) ≡ negated (scan_digits 2147483648 t)
unfolding parse_i32
parse_signed t = refl

negated_twice :
    (m : I32) → m < 4294967296 → 2147483648 ≤ m → negated (some (4294967296 - m)) ≡ some m
unfolding negated
negated_twice m p q = ap some (omega arith)

parse_negative :
    (m : I32)
    → m < 4294967296
    → 2147483648 ≤ m
    → parse_i32 (b'-' ∷ digits 10 (4294967296 - m) []) ≡ some m
parse_negative m p q =
    parse_signed (digits 10 (4294967296 - m) [])
    ∙ ap negated (scan_digits-digits 2147483648 (4294967296 - m) (omega arith) (omega arith))
    ∙ negated_twice m p q

-- Every `i32` is read back from its decimal print.
pub parse_i32-show_i32 : (n : I32) → n < 4294967296 → parse_i32 (show_i32 n) ≡ some n
unfolding show_i32
parse_i32-show_i32 n h = elim (Bool-cases (ltb n 2147483648)) [
  | inl positive ↦ rw positive (
      let (c, s, e) = digits-cons 9 n [] in
      parse_unsigned (digits 10 n []) (digits-IsDigit 10 n [] tt) c s e
      ∙ scan_digits-digits 2147483647 n (ground arith) (omega arith))
  | inr negative ↦ rw negative (parse_negative n h (ground arith))
]

pub show_i32-small : (n : I32) → ltb n 2147483648 ≡ true → show_i32 n ≡ digits 10 n []
unfolding show_i32
show_i32-small n h = rw h refl

pub show_i32-large :
    (n : I32) → ltb n 2147483648 ≡ false → show_i32 n ≡ b'-' ∷ digits 10 (4294967296 - n) []
unfolding show_i32
show_i32-large n h = rw h refl

pub show_i32-injective :
    (n m : I32) → n < 4294967296 → m < 4294967296 → show_i32 n ≡ show_i32 m → n ≡ m
show_i32-injective n m p q h =
    let e : some n ≡ some m =
      sym (parse_i32-show_i32 n p) ∙ ap parse_i32 h ∙ parse_i32-show_i32 m q in
    cc
