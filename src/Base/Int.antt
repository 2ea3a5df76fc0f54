-- ===== src/Base/Int.antt =====
-- Go's `int` where a value may be negative.
use Prim.Native.Nat.{ℕ, suc, ◌-◌, ◌*◌, ◌%◌, ◌^◌}
use mathlib.Core.Bool.{Bool, true}
use virtwork.Base.Tests.{ltb, if◌then◌else◌}

-- `negsuc n` is -(n + 1).
pub data ℤ : Type 0 where
  pos : ℕ → ℤ
  negsuc : ℕ → ℤ

-- `n < k` for a limit `k` that is not negative
abbrev pub below : ℤ → ℕ → Bool
below (pos n) k = ltb n k
below (negsuc n) k = true

-- The number of rounds of `for i := range n`: none where `n` is negative.
abbrev pub rounds : ℤ → ℕ
rounds (pos n) = n
rounds (negsuc n) = 0

-- the `int64` with these 64 bits, in two's complement
abbrev pub of_bits : ℕ → ℤ
of_bits m = if ltb m (2 ^ 63) then pos m else negsuc (2 ^ 64 - 1 - m)

-- `int64(n) * k` for a `k` that is not negative, which wraps around
abbrev pub times_int64 : ℤ → ℕ → ℤ
times_int64 (pos n) k = of_bits (n * k % 2 ^ 64)
times_int64 (negsuc n) k = of_bits ((2 ^ 64 - suc n * k % 2 ^ 64) % 2 ^ 64)
