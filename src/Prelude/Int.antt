-- ===== src/Prelude/Int.antt =====
-- Go's `int` where the code lets a counter go below zero: the few operations that it uses.
use Prim.Native.Nat.{ℕ, zero, suc}
use tailflow_agent.Prelude.Tests.{leb}
use mathlib.Core.Bool.{Bool, true, false}

-- `negsuc n` is -(n + 1).
pub data ℤ : Type 0 where
  pos : ℕ → ℤ
  negsuc : ℕ → ℤ

-- `n--`
abbrev pub dec : ℤ → ℤ
dec (pos zero) = negsuc 0
dec (pos (suc n)) = pos n
dec (negsuc n) = negsuc (suc n)

-- `n++`
abbrev pub inc : ℤ → ℤ
inc (pos n) = pos (suc n)
inc (negsuc zero) = pos 0
inc (negsuc (suc n)) = negsuc n

-- `n == 0`
abbrev pub is_zero : ℤ → Bool
is_zero (pos zero) = true
is_zero (pos (suc n)) = false
is_zero (negsuc n) = false

-- `n <= 0`
abbrev pub le_zero : ℤ → Bool
le_zero (pos zero) = true
le_zero (pos (suc n)) = false
le_zero (negsuc n) = true

-- `n < 0`
abbrev pub lt_zero : ℤ → Bool
lt_zero (pos n) = false
lt_zero (negsuc n) = true

-- `n <= z` and `z <= n` for a natural number `n`
abbrev pub ge_nat : ℤ → ℕ → Bool
ge_nat (pos m) n = leb n m
ge_nat (negsuc m) n = false

abbrev pub le_nat : ℤ → ℕ → Bool
le_nat (pos m) n = leb m n
le_nat (negsuc m) n = true
