-- ===== src/Variable/Range.antt =====
-- core/builtin.go: `newIntSample`, the integers of a range, and the random variables over it.
use diablo.Prelude.{
  ℕ, suc, ◌+◌, ◌-◌, ◌%◌, ◌^◌, ◌<◌, ◌≤◌, ◌≡◌, refl, Bool, Option, some, true, false, Bytes, ℤ, pos,
  negsuc, ltb, ◌==◌, if◌then◌else◌, arith, ap, ◌∙◌,
}
use diablo.Wire.Errors.{Result, ok}
use diablo.Random.{select, select_at, event, new_uniform, is_regular, regular, Uniform}
use diablo.Variable.{
  Opaque, int, int_sample, to_int, plus, get_variable, as_int, try_as, or_default, try_get_int,
  get_int, VariableImpl,
}
use diablo.Variable.Immediate.{IsInt}

unfoldable pub minus : ℤ → ℤ → ℤ
unfolding plus
minus a (negsuc n) = plus a (n + 1)
minus (pos m) (pos n) = if ltb m n then negsuc (n - m - 1) else pos (m - n)
minus (negsuc m) (pos n) = negsuc (m + n)

unfoldable pub lt_ℤ : ℤ → ℤ → Bool
lt_ℤ (pos a) (pos b) = ltb a b
lt_ℤ (negsuc a) (negsuc b) = ltb b a
lt_ℤ (pos a) (negsuc b) = false
lt_ℤ (negsuc a) (pos b) = true

pub record IntSample : Type 0 where
  pub offset : ℤ
  pub size : ℤ

-- `newIntSample`; the difference and the sum wrap around together.
unfoldable pub new_int_sample : ℤ → ℤ → IntSample
new_int_sample from to =
    if lt_ℤ to from
    then record { offset = from; size = pos 0 }
    else record { offset = from; size = to_int (plus (minus to from) 1) }

pub to_int-eq : (i : ℤ) → IsInt i → to_int i ≡ i
unfolding to_int
to_int-eq (pos n) h = ground arith
to_int-eq (negsuc n) h = ground arith

minus-plus : (from : ℤ) (n : ℕ) → minus (plus from n) from ≡ pos n
unfolding minus plus
minus-plus (pos m) n = ground arith
minus-plus (negsuc m) n = ground arith

lt-plus : (from : ℤ) (n : ℕ) → lt_ℤ (plus from n) from ≡ false
unfolding lt_ℤ plus
lt-plus (pos m) n = ground arith
lt-plus (negsuc m) n = ground arith

pub IsInt-plus :
    (from : ℤ) (n k : ℕ) → IsInt from → IsInt (plus from n) → k ≤ n → IsInt (plus from k)
unfolding plus
IsInt-plus (pos m) n k h i le = omega arith
IsInt-plus (negsuc m) n k h i le = ground arith

pub new_int_sample-size :
    (from : ℤ) (n : ℕ)
    → suc n < 2 ^ 63
    → new_int_sample from (plus from n) ≡ record { offset = from; size = pos (suc n) }
unfolding new_int_sample plus
new_int_sample-size from n h =
    let count : to_int (plus (pos n) 1) ≡ pos (suc n) =
      to_int-eq (pos (n + 1)) (omega arith) ∙ ap pos (omega arith) in
    let sized : ℤ → IntSample = λ z. record { offset = from; size = z } in
    rw (lt-plus from n, minus-plus from n) (ap sized count)

-- The variable that draws from a sample of so many integers from `from` on, each draw on its own.
abbrev pub over_integers : Bytes → ℤ → ℕ → VariableImpl
over_integers domain from size = record {
  domain = domain;
  sample = int_sample from;
  distrib = new_uniform size regular;
}

pub draw-lt : (draw n : ℕ) → draw % suc n ≤ n
draw-lt draw n = omega arith

select-regular :
    (draw n : ℕ)
    → select draw (new_uniform (suc n) regular) ≡ (ok (draw % suc n), new_uniform (suc n) regular)
unfolding select select_at new_uniform is_regular event
select-regular draw n = let some_left : (suc n == 0) ≡ false = ground arith in rw (some_left) refl

pub read-regular :
    (from : ℤ) (n draw : ℕ)
    → get_variable (int_sample from) draw (new_uniform (suc n) regular)
      ≡ (ok (some (int (to_int (plus from (draw % suc n))))), new_uniform (suc n) regular)
unfolding get_variable int_sample
read-regular from n draw =
    rw (select-regular draw n, get_variable) (rw (select-regular draw n) refl)

get_int-over_integers :
    (domain : Bytes) (from default_value : ℤ) (n draw : ℕ)
    → get_int default_value draw (over_integers domain from (suc n))
      ≡ (ok (to_int (plus from (draw % suc n))), over_integers domain from (suc n))
unfolding get_int try_get_int as_int try_as or_default
get_int-over_integers domain from default_value n draw =
    ap
      (λ (r : Result (Option Opaque) × Uniform). (
        or_default default_value (try_as as_int (r.0)),
        record (over_integers domain from (suc n)) { distrib = r.1 },
      ))
      (read-regular from n draw)

-- For the range from `from` to `from + n`, both within the range of an int and fewer than 2 ^ 63
-- integers: the sample starts at `from` and has `n + 1` elements; and a regular variable over it gives
-- on every draw an integer of the range, by the remainder of the number drawn, never its default, and
-- is the same variable afterwards. A range whose end is below its start has no elements.
get_int-new_int_sample :
    (domain : Bytes) (from below default_value : ℤ) (n draw : ℕ)
    → IsInt from
    → IsInt (plus from n)
    → suc n < 2 ^ 63
    → lt_ℤ below from ≡ true
    → (new_int_sample from (plus from n) ≡ record { offset = from; size = pos (suc n) })
      × (get_int default_value draw (over_integers domain from (suc n))
          ≡ (ok (plus from (draw % suc n)), over_integers domain from (suc n)))
      × (draw % suc n ≤ n)
      × (new_int_sample from below ≡ record { offset = from; size = pos 0 })
unfolding new_int_sample
get_int-new_int_sample domain from below default_value n draw h i few less = (
  new_int_sample-size from n few,
  get_int-over_integers domain from default_value n draw
      ∙ ap (λ (z : ℤ). (ok z, over_integers domain from (suc n)))
          (to_int-eq (plus from (draw % suc n))
            (IsInt-plus from n (draw % suc n) h i (draw-lt draw n))),
  draw-lt draw n,
  rw (less) refl,
)
