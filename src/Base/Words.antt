-- ===== src/Base/Words.antt =====
-- A Rust `i32` as its bit pattern, a number below 2 ^ 32. Additions wrap, as in a release build.
use Prim.Native.Nat.{ℕ, ◌+◌, ◌-◌, ◌%◌, ◌<◌}
use mathlib.Core.Path.{◌≡◌}
use mathlib.Core.Bool.{Bool, true, false}
use native.Mathlib.Omega.{arith}
use dreamscroll.Base.Tests.{ltb}

abbrev pub I32 : Type 0
I32 = ℕ

-- The two's complement pattern of -n.
abbrev pub neg_i32 : ℕ → I32
neg_i32 n = (4294967296 - n) % 4294967296

unfoldable pub add_i32 : I32 → I32 → I32
add_i32 a b = (a + b) % 4294967296

-- The signed order: both patterns are moved up by 2 ^ 31.
unfoldable pub lt_i32 : I32 → I32 → Bool
lt_i32 a b = ltb ((a + 2147483648) % 4294967296) ((b + 2147483648) % 4294967296)

unfoldable pub max_i32 : I32 → I32 → I32
unfolding lt_i32
max_i32 a b = elim (lt_i32 a b) [ true ↦ b | false ↦ a ]

pub add_i32-small : (a b : ℕ) → a + b < 4294967296 → add_i32 a b ≡ a + b
unfolding add_i32
add_i32-small a b h = omega arith

-- On numbers below 2 ^ 31 the signed order is the order.
pub lt_i32→lt : (a b : ℕ) → a < 2147483648 → b < 2147483648 → lt_i32 a b ≡ true → a < b
unfolding lt_i32
lt_i32→lt a b p q h = ground arith

pub lt→lt_i32 : (a b : ℕ) → a < 2147483648 → b < 2147483648 → a < b → lt_i32 a b ≡ true
unfolding lt_i32
lt→lt_i32 a b p q h = ground arith
