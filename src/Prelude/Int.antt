-- ===== src/Prelude/Int.antt =====
-- Go's `int`, read as an integer, and its conversions to unsigned words.
use Prim.Native.Nat.{ℕ, ◌<◌, ◌-◌, ◌%◌}
use mathlib.Core.Path.{◌≡◌}
use mathlib.Core.Logic.{◌↔◌}
use mathlib.Core.Bool.{Bool, true, false}
use native.Mathlib.Omega.{arith}
use diablo.Prelude.Tests.{leb, ◌==◌}

-- `negsuc n` is -(n + 1).
pub data ℤ : Type 0 where
  pos : ℕ → ℤ
  negsuc : ℕ → ℤ

-- Is the integer at least the number?
abbrev pub leb_ℤ : ℕ → ℤ → Bool
leb_ℤ k (pos n) = leb k n
leb_ℤ k (negsuc n) = false

-- `uint8(x)`, `uint16(x)`, `uint32(x)` at the modulus 2 ^ 8, 2 ^ 16, 2 ^ 32.
abbrev pub wrap : ℕ → ℤ → ℕ
wrap m (pos n) = n % m
wrap m (negsuc n) = m - 1 - n % m

abbrev pub eq_ℤ : ℤ → ℤ → Bool
eq_ℤ (pos a) (pos b) = a == b
eq_ℤ (negsuc a) (negsuc b) = a == b
eq_ℤ _ _ = false

pub eq_ℤ_iff : (a b : ℤ) → (eq_ℤ a b ≡ true) ↔ (a ≡ b)
eq_ℤ_iff (pos a) (pos b) = ground arith
eq_ℤ_iff (negsuc a) (negsuc b) = ground arith
eq_ℤ_iff (pos a) (negsuc b) = ground arith
eq_ℤ_iff (negsuc a) (pos b) = ground arith

-- The guard `index >= (1 << 32)` lets every negative number through.
abbrev pub Below : ℕ → ℤ → Type 0
Below k i = leb_ℤ k i ≡ false

pub wrap-lt : (m : ℕ) (i : ℤ) → 0 < m → wrap m i < m
wrap-lt m (pos n) h = omega arith
wrap-lt m (negsuc n) h = omega arith

-- 0 ≤ i < k
abbrev pub Within : ℕ → ℤ → Type 0
Within k (pos n) = n < k
Within k (negsuc n) = ⊥

pub Within-Below : (k : ℕ) (i : ℤ) → Within k i → Below k i
Within-Below k (pos n) h = ground arith
Within-Below k (negsuc n) h = absurd h
