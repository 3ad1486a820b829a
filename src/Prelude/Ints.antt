-- ===== src/Prelude/Ints.antt =====
-- Differences of two native numbers, with their sign.
use Prim.Native.Nat.{ℕ, ◌-◌}
use keg_scale_espdisplay.Prelude.Tests.{leb, if◌then◌else◌}

-- `pos n` is n and `negsuc n` is -(n + 1).
pub data ℤ : Type 0 where
  pos : ℕ → ℤ
  negsuc : ℕ → ℤ

-- `int` a - b.
unfoldable pub diff : ℕ → ℕ → ℤ
diff a b = if leb b a then pos (a - b) else negsuc (b - a - 1)
