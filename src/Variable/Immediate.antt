-- ===== src/Variable/Immediate.antt =====
-- The constants of a benchmark as variables, of core/variable.go.
use diablo.Prelude.{ℕ, ◌%◌, ◌^◌, ◌<◌, ◌≡◌, Bytes, ℤ, pos, negsuc, arith, ap}
use diablo.Wire.Errors.{ok}
use diablo.Random.{select, select_at, event, new_uniform, is_regular}
use diablo.Variable.{
  int_sample, to_int, plus, get_variable, as_int, try_as, or_default, try_get_int, get_int,
  new_int_immediate,
}

-- The range of a 64-bit int.
abbrev pub IsInt : ℤ → Type 0
IsInt (pos n) = n < 2 ^ 63
IsInt (negsuc n) = n < 2 ^ 63

to_int-IsInt : (i : ℤ) → IsInt i → to_int (plus i 0) ≡ i
unfolding to_int plus
to_int-IsInt (pos n) h = ground arith
to_int-IsInt (negsuc n) h = ground arith

one_mod : (r : ℕ) → r % 1 ≡ 0
one_mod r = omega arith

-- An integer constant within the range of an int gives this integer on every draw, never its default,
-- and is the same variable afterwards.
pub get_int-new_int_immediate :
    (domain : Bytes) (value default_value : ℤ) (draw : ℕ)
    → IsInt value
    → get_int default_value draw (new_int_immediate domain value)
      ≡ (ok value, new_int_immediate domain value)
unfolding get_int try_get_int get_variable new_int_immediate new_uniform is_regular select select_at
    event as_int try_as or_default int_sample
get_int-new_int_immediate domain value default_value draw h =
    rw (one_mod draw)
      (ap (λ (z : ℤ). (ok z, new_int_immediate domain value)) (to_int-IsInt value h))
