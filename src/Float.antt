-- ===== src/Float.antt =====
-- Go's `float64` as its IEEE 754 bit pattern, with the comparisons that the program makes.
use diablo.Prelude.{◌≡◌, ◌≤◌, arith, ℕ, ◌+◌, ◌-◌, ◌%◌, ◌^◌, ◌<◌, Bool, false, ltb, if◌then◌else◌}

abbrev pub Float64 : Type 0
Float64 = ℕ

-- Every pattern of 64 bits is a value.
abbrev pub IsFloat64 : Float64 → Type 0
IsFloat64 a = a < 2 ^ 64

abbrev sign_bit : ℕ
sign_bit = 2 ^ 63

-- Exponent and fraction of the infinities: above it stand the NaNs.
abbrev infinity : ℕ
infinity = 0x7ff0_0000_0000_0000

unfoldable pub is_nan : Float64 → Bool
is_nan a = ltb infinity (a % sign_bit)

-- Where the value of a pattern stands in the order of all values, counted from the lowest one; both
-- zeros stand at the same place.
unfoldable pub rank : Float64 → ℕ
rank a = if ltb a sign_bit then sign_bit + a else sign_bit - a % sign_bit

-- `a < b`: false when one of them is a NaN.
unfoldable pub lt_float : Float64 → Float64 → Bool
unfolding is_nan rank
lt_float a b = if is_nan a then false else if is_nan b then false else ltb (rank a) (rank b)

abbrev pub IsNumber : Float64 → Type 0
IsNumber a = is_nan a ≡ false

-- Between numbers the comparison is that of their ranks.
pub lt_float-rank : (a b : Float64) → IsNumber a → IsNumber b → lt_float a b ≡ ltb (rank a) (rank b)
unfolding lt_float
lt_float-rank a b ha hb = rw (ha, hb)

-- Taking the later of two times.
pub later_bounds :
    (a b : Float64)
    → IsNumber a
    → IsNumber b
    → IsNumber (if lt_float a b then b else a)
      × (rank a ≤ rank (if lt_float a b then b else a))
      × (rank b ≤ rank (if lt_float a b then b else a))
later_bounds a b ha hb = ground (arith, lt_float-rank a b ha hb)
