-- ===== src/Common/Words.antt =====
-- Machine words as native numbers.
use Prim.Native.Nat.{ℕ, ◌+◌, ◌-◌, ◌%◌, ◌^◌, ◌≤◌, ◌<◌}
use mathlib.Core.Path.{◌≡◌}
use native.Mathlib.Omega.{arith}

-- `size_t` and pointers are 64 bits wide.
abbrev pub modulus : ℕ
modulus = 2 ^ 64

-- `a - b` on 64 bits
abbrev pub sub_size : ℕ → ℕ → ℕ
sub_size a b = (a + modulus - b) % modulus

pub sub_size-le : (a b : ℕ) → b ≤ a → a < modulus → sub_size a b ≡ a - b
sub_size-le a b h k = omega arith
