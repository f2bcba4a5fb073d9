-- ===== src/Base/Int.antt =====
-- Signed numbers over the native natural numbers, for the durations that the database computes.
use Prim.Native.Nat.{ℕ, ◌+◌, ◌-◌, ◌*◌, ◌/◌}
use dreamscroll.Base.Tests.{leb, if◌then◌else◌}

-- `negsuc n` is -(n + 1).
pub data ℤ : Type 0 where
  pos negsuc : ℕ → ℤ

unfoldable pub minus : ℕ → ℕ → ℤ
minus a b = if leb b a then pos (a - b) else negsuc (b - a - 1)

-- -n.
unfoldable pub neg : ℕ → ℤ
unfolding minus
neg n = minus 0 n

-- The quotient by 1000, rounded to the nearest, and half away from zero.
unfoldable pub thousandths : ℤ → ℤ
unfolding neg
thousandths (pos n) = pos ((n + 500) / 1000)
thousandths (negsuc n) = neg ((n + 501) / 1000)

unfoldable pub thousands : ℤ → ℤ
thousands (pos n) = pos (1000 * n)
thousands (negsuc n) = negsuc (1000 * n + 999)
