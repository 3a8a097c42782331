-- ===== src/Prelude/Order.antt =====
-- The lexicographic order of tuples of three numbers, as Python compares them.
use Prim.Native.Nat.{ℕ, ◌≤◌, ◌<◌}
use mathlib.Core.Path.{◌≡◌, refl}
use mathlib.Core.Logic.{◌⊎◌, inr}
use native.Mathlib.Omega.{arith}

abbrev pub LexLe : ℕ × ℕ × ℕ → ℕ × ℕ × ℕ → Type 0
LexLe (a, b, c) (a', b', c') = (a < a') ⊎ ((a ≡ a') × ((b < b') ⊎ ((b ≡ b') × (c ≤ c'))))

pub LexLe-refl : (x : ℕ × ℕ × ℕ) → LexLe x x
LexLe-refl (a, b, c) = inr (refl, inr (refl, omega arith))

pub LexLe-trans : (x y z : ℕ × ℕ × ℕ) → LexLe x y → LexLe y z → LexLe x z
LexLe-trans (a, b, c) (a', b', c') (a'', b'', c'') h k = ground arith
