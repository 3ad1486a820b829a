-- ===== src/Prelude/Words.antt =====
-- Machine words as native numbers, with their wrap-around written out.
use Prim.Native.Nat.{ℕ, ◌+◌, ◌-◌, ◌%◌, ◌^◌, ◌≤◌, ◌<◌}
use mathlib.Core.Path.{◌≡◌}
use native.Mathlib.Omega.{arith}
use keg_scale_espdisplay.Prelude.Tests.{ltb, if◌then◌else◌}
use mathlib.Core.Bool.{Bool}

-- uint32_t a - b.
unfoldable pub sub32 : ℕ → ℕ → ℕ
sub32 a b = (a + 2 ^ 32 - b % 2 ^ 32) % 2 ^ 32

-- uint32_t a + b.
unfoldable pub add32 : ℕ → ℕ → ℕ
add32 a b = (a + b) % 2 ^ 32

-- (int32_t)w < 0 for a 32-bit pattern w.
unfoldable pub is_neg32 : ℕ → Bool
is_neg32 w = ltb (2 ^ 31 - 1) w

-- |a - b|.
unfoldable pub abs_diff : ℕ → ℕ → ℕ
abs_diff a b = if ltb a b then b - a else a - b

pub sub32_self : (a : ℕ) → sub32 a a ≡ 0
unfolding sub32
sub32_self a = omega arith

pub sub32-lt : (a b : ℕ) → sub32 a b < 2 ^ 32
unfolding sub32
sub32-lt a b = omega arith

-- Without a wrap the difference is the plain one.
pub sub32_of_le : (a b : ℕ) → b ≤ a → a < 2 ^ 32 → sub32 a b ≡ a - b
unfolding sub32
sub32_of_le a b h k = omega arith

pub add32-mod : (a b : ℕ) → add32 (a % 2 ^ 32) b ≡ (a + b) % 2 ^ 32
unfolding add32
add32-mod a b = omega arith
