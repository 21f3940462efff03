-- ===== src/Fuse.antt =====
-- core/benchmark.go: `fuseGenerators`, which merges streams of interactions by their times. A channel
-- is the list of what it still delivers: an element that was received ahead is the first of its list,
-- and nil is an empty one.
pub mod Least
pub mod Merge
use diablo.Prelude.{
  ℕ, zero, suc, Bool, true, false, Option, none, some, List, [], ◌∷◌, pos, get_elem?, set,
  if◌then◌else◌,
}
use diablo.Float.{Float64, lt_float}
use diablo.Wire.Errors.{Result, ok, err, and_then, index_out_of_range, out_of_fuel}

-- The client, the factory, the source and the scope are passed on.
pub record BenchmarkInteraction (Rest : Type 0) : Type 0 where
  pub schedule_time : Float64
  pub rest : Rest

module _ {Rest : Type 0} where
  -- Does the element of this stream take the place of `elements[min]`?
  unfoldable pub replaces :
      List (BenchmarkInteraction Rest) → Option (List (BenchmarkInteraction Rest)) → Bool
  replaces [] t = false
  replaces (x ∷ xs) none = false
  replaces (x ∷ xs) (some []) = true
  replaces (x ∷ xs) (some (y ∷ ys)) = lt_float x.schedule_time y.schedule_time

  -- The loop over the elements from index `i` on.
  unfoldable pub min_from :
      List (List (BenchmarkInteraction Rest)) → List (List (BenchmarkInteraction Rest)) → ℕ → ℕ → ℕ
  min_from all [] i min = min
  min_from all (s ∷ ss) i min =
      min_from all ss (suc i) (if replaces s (get_elem? all min) then i else min)

  -- The outer loop: what it sends. Without any stream, `elements[0]` panics.
  unfoldable pub fuse_generators :
      ℕ → List (List (BenchmarkInteraction Rest)) → Result (List (BenchmarkInteraction Rest))
  fuse_generators zero ins = err out_of_fuel
  fuse_generators (suc fuel) ins =
      let min = min_from ins ins 0 0 in
      elim (get_elem? ins min) [
        | none ↦ err (index_out_of_range (pos min))
        | some s ↦ elim s [
          | [] ↦ ok []
          | x ∷ xs ↦ and_then (fuse_generators fuel (set ins min xs)) (λ rest. ok (x ∷ rest))
        ]
      ]
