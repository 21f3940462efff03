-- ===== src/Producer.antt =====
-- core/handlers/workloadhandler.go: `workloadProducer`, which puts the transactions of an interval on a
-- channel at each tick of a clock. What it sends is a list; the clock is not modelled.
use diablo.Prelude.{
  ℕ, zero, suc, ◌<◌, ◌≡◌, refl, ap, sym, none, some, List, [], ◌∷◌, ◌++◌, pos, length,
  length-append, get_elem?, get_elem?-append_length, leb, if◌then◌else◌, true, false, arith,
}
use mathlib.Core.List.{append_assoc, append-nil}
use diablo.Wire.Errors.{Result, ok, err, and_then, index_out_of_range, out_of_fuel}

module _ {A : Type 0} where
  -- The loop over the ticks, at most one for each interval.
  unfoldable pub tick_loop : ℕ → List (List A) → ℕ → Result (List A)
  tick_loop zero workload i = err out_of_fuel
  tick_loop (suc fuel) workload i = elim (get_elem? workload i) [
    | none ↦ err (index_out_of_range (pos i))
    | some vs ↦
        let more = and_then (tick_loop fuel workload (suc i)) (λ rest. ok (vs ++ rest)) in
        if leb (length workload) (suc i) then ok vs else more
  ]

  unfoldable pub workload_producer : List (List A) → Result (List A)
  unfolding tick_loop
  workload_producer workload = elim (get_elem? workload 0) [
    | none ↦ err (index_out_of_range (pos 0))
    | some vs ↦ and_then (tick_loop (length workload) workload 1) (λ rest. ok (vs ++ rest))
  ]

  -- The transactions of all intervals.
  abbrev pub flat : List (List A) → List A
  flat [] = []
  flat (vs ∷ vss) = vs ++ flat vss

  tick_loop-flat :
      (fuel : ℕ) (pre : List (List A)) (vs : List A) (rest : List (List A))
      → length rest < fuel
      → tick_loop fuel (pre ++ vs ∷ rest) (length pre) ≡ ok (flat (vs ∷ rest))
  unfolding tick_loop
  tick_loop-flat zero pre vs rest h = elim h [ ]
  tick_loop-flat (suc fuel) pre vs [] h =
      let n = length-append pre (vs ∷ []) in
      let last : leb (length (pre ++ vs ∷ [])) (suc (length pre)) ≡ true = ground arith in
      rw (get_elem?-append_length pre vs [], tick_loop, last) (ap ok (sym (append-nil vs)))
  tick_loop-flat (suc fuel) pre vs (ws ∷ rest) h =
      let n = length-append pre (vs ∷ ws ∷ rest) in
      let more : leb (length (pre ++ vs ∷ ws ∷ rest)) (suc (length pre)) ≡ false = ground arith in
      let again = tick_loop-flat fuel (pre ++ vs ∷ []) ws rest (omega arith) in
      let k : length (pre ++ vs ∷ []) ≡ suc (length pre) =
        omega (arith, length-append pre (vs ∷ [])) in
      let next : tick_loop fuel (pre ++ vs ∷ ws ∷ rest) (suc (length pre)) ≡ ok (flat (ws ∷ rest)) =
        rw (append_assoc pre (vs ∷ []) (ws ∷ rest), k) at again in
      rw (get_elem?-append_length pre vs (ws ∷ rest), tick_loop, more) (rw next refl)

  -- Of a workload of two or more intervals, the producer sends all transactions, interval by interval;
  -- of a workload of one interval it panics at the first tick, and of none at once.
  pub workload_producer-flat :
      (vs ws : List A) (rest : List (List A))
      → (workload_producer (vs ∷ ws ∷ rest) ≡ ok (flat (vs ∷ ws ∷ rest)))
        × (workload_producer (vs ∷ []) ≡ err (index_out_of_range (pos 1)))
        × (workload_producer [] ≡ err (index_out_of_range (pos 0)))
  unfolding workload_producer tick_loop
  workload_producer-flat vs ws rest = (
    rw (tick_loop-flat (length (vs ∷ ws ∷ rest)) (vs ∷ []) ws rest (omega arith)) refl,
    refl,
    refl,
  )
