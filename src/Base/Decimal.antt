-- ===== src/Base/Decimal.antt =====
-- The decimal print of a Rust `i32`, and `str::parse::<i32>`.
pub mod RoundTrip
use Prim.Native.Nat.{ℕ, zero, suc, ◌+◌, ◌-◌, ◌*◌, ◌/◌, ◌%◌}
use mathlib.Core.Bool.{Bool, true, false, ◌&&◌}
use mathlib.Core.Option.{Option, none, some}
use mathlib.Core.List.{List, [], ◌∷◌}
use dreamscroll.Base.Tests.{ltb, leb, ◌==◌, if◌then◌else◌}
use dreamscroll.Base.Words.{I32}
use dreamscroll.Base.Text.{Text}

-- Decimal digits, the last one first found; ten rounds are enough for 32 bits.
pub digits : ℕ → ℕ → Text → Text
digits zero n rest = rest
digits (suc fuel) n rest =
    let more = digits fuel (n / 10) ((48 + n % 10) ∷ rest) in
    if ltb n 10 then (48 + n) ∷ rest else more

unfoldable pub show_i32 : I32 → Text
unfolding digits
show_i32 n = if ltb n 2147483648 then digits 10 n [] else b'-' ∷ digits 10 (4294967296 - n) []

pub is_digit : ℕ → Bool
is_digit c = leb 48 c && leb c 57

-- Digits behind the number `n`; `none` where the number passes the limit.
pub scan : ℕ → Text → ℕ → Option ℕ
unfolding is_digit
scan limit [] n = some n
scan limit (c ∷ s) n =
    let m = n * 10 + (c - 48) in
    let rest = scan limit s m in if is_digit c && leb m limit then rest else none

-- At least one digit.
scan_digits : ℕ → Text → Option ℕ
unfolding scan
scan_digits limit [] = none
scan_digits limit (c ∷ s) = scan limit (c ∷ s) 0

negated : Option ℕ → Option I32
negated none = none
negated (some n) = some ((4294967296 - n) % 4294967296)

-- A sign is optional; `none` is the error.
unfoldable pub parse_i32 : Text → Option I32
unfolding scan_digits negated
parse_i32 [] = none
parse_i32 (c ∷ s) =
    if c == b'-'
    then negated (scan_digits 2147483648 s)
    else if c == b'+'
    then scan_digits 2147483647 s
    else scan_digits 2147483647 (c ∷ s)
