-- ===== src/Base/Int.antt =====
-- Signed integers and quotients of them, as far as the scores use them: differences of dates and of
-- counts, Python's `round` (to the even neighbour at a tie), and the clamp to 0..100.
use Prim.Native.Nat.{ℕ, suc, ◌+◌, ◌-◌, ◌*◌, ◌/◌, ◌%◌, ◌≤◌, ◌<◌}
use mathlib.Core.Bool.{Bool}
use native.Mathlib.Omega.{arith}
use trend_engine_backend.Base.Tests.{ltb, leb, if◌then◌else◌}

-- `negsuc n` is -(n + 1).
pub data ℤ : Type 0 where
  pos : ℕ → ℤ
  negsuc : ℕ → ℤ

abbrev pub pos_part : ℤ → ℕ
pos_part (pos n) = n
pos_part (negsuc n) = 0

abbrev pub neg_part : ℤ → ℕ
neg_part (pos n) = 0
neg_part (negsuc n) = suc n

-- a - b, as an integer.
abbrev pub sub_ℕ : ℕ → ℕ → ℤ
sub_ℕ a b = if leb b a then pos (a - b) else negsuc (b - a - 1)

infixl 65 ◌+ℤ◌
infix 50 ◌≤ℤ◌ ◌<ℤ◌
unfoldable pub ◌+ℤ◌ : ℤ → ℤ → ℤ
a +ℤ b = sub_ℕ (pos_part a + pos_part b) (neg_part a + neg_part b)

abbrev pub ◌≤ℤ◌ : ℤ → ℤ → Type 0
a ≤ℤ b = pos_part a + neg_part b ≤ pos_part b + neg_part a

abbrev pub ◌<ℤ◌ : ℤ → ℤ → Type 0
a <ℤ b = pos_part a + neg_part b < pos_part b + neg_part a

abbrev pub leb_ℤ : ℤ → ℤ → Bool
leb_ℤ a b = leb (pos_part a + neg_part b) (pos_part b + neg_part a)

-- Python's `a // n` for a positive n: rounded towards minus infinity.
abbrev pub floor_div : ℤ → ℕ → ℤ
floor_div (pos a) n = pos (a / n)
floor_div (negsuc a) n = negsuc (a / n)

-- Python's `round (a / n)`: to the nearest whole number, at a tie to the even one.
unfoldable pub round_div : ℕ → ℕ → ℕ
round_div a n =
    let q = a / n in
    let twice = 2 * (a % n) in if ltb twice n then q else if ltb n twice then q + 1 else q + q % 2

unfoldable pub round_ℤ : ℤ → ℕ → ℤ
unfolding round_div
round_ℤ (pos a) n = pos (round_div a n)
round_ℤ (negsuc a) n = sub_ℕ 0 (round_div (suc a) n)

-- `max(0, min(100, value))`
abbrev pub clamp_100 : ℤ → ℕ
clamp_100 (pos a) = if ltb 100 a then 100 else a
clamp_100 (negsuc a) = 0

pub clamp_100-le : (a : ℤ) → clamp_100 a ≤ 100
clamp_100-le (pos a) = ground arith
clamp_100-le (negsuc a) = omega arith
