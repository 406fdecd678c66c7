-- ===== src/Base/Word.antt =====
-- An int32 keeps a result that fits.
use Prim.Native.Nat.{ℕ, ◌+◌, ◌^◌, ◌<◌}
use mathlib.Core.Path.{◌≡◌}
use native.Mathlib.Omega.{arith}
use cloudrun.Base.Int.{pos, ◌+ℤ◌, ◌-ℤ◌, sub_ℕ, i32, i64}

pub i32_add : (a b : ℕ) → a + b < 2 ^ 31 → i32 (pos a +ℤ pos b) ≡ pos (a + b)
unfolding i32 ◌+ℤ◌
i32_add a b h = ground arith

pub i32_sub : (a b : ℕ) → a < 2 ^ 31 → b < 2 ^ 31 → i32 (pos a -ℤ pos b) ≡ sub_ℕ a b
unfolding i32 ◌-ℤ◌
i32_sub a b h k = ground arith

-- So does an int64.
pub i64_add : (a b : ℕ) → a + b < 2 ^ 63 → i64 (pos a +ℤ pos b) ≡ pos (a + b)
unfolding i64 ◌+ℤ◌
i64_add a b h = ground arith
