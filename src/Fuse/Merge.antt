-- ===== src/Fuse/Merge.antt =====
-- What `fuseGenerators` of core/benchmark.go makes of sorted streams.
use diablo.Prelude.{
  ℕ, zero, suc, ◌+◌, ◌≤◌, ◌<◌, ◌≡◌, refl, some, List, [], ◌∷◌, ◌++◌, length, length-set, get_elem?,
  set, All, All-get, All-set, arith,
}
use mathlib.Core.List.{Perm, perm_middle}
use mathlib.Core.List.Perm
use diablo.Wire.Errors.{ok}
use diablo.Float.{rank}
use diablo.Fuse.{BenchmarkInteraction, min_from, fuse_generators}
use diablo.Fuse.Least.{Stream, AreTimed, Leads, min_from-Leads}

module _ {Rest : Type 0} where
  -- All elements of the streams, and how many there are.
  abbrev pub joined : List (Stream Rest) → Stream Rest
  joined [] = []
  joined (s ∷ ss) = s ++ joined ss

  abbrev pub total : List (Stream Rest) → ℕ
  total [] = 0
  total (s ∷ ss) = length s + total ss

  -- No time is below the rank; the times do not fall.
  abbrev pub IsAfter : ℕ → Stream Rest → Type 0
  IsAfter b s = All (λ x. b ≤ rank x.schedule_time) s

  abbrev pub IsOrdered : Stream Rest → Type 0
  IsOrdered [] = Unit
  IsOrdered (x ∷ xs) = IsAfter (rank x.schedule_time) xs × IsOrdered xs

  module _ (x : BenchmarkInteraction Rest) (xs : Stream Rest) where
    joined-set :
        (ss : List (Stream Rest)) (i : ℕ)
        → get_elem? ss i ≡ some (x ∷ xs)
        → Perm (joined ss) (x ∷ joined (set ss i xs))
    joined-set [] i e = cc
    joined-set (t ∷ ts) zero e = let same : t ≡ x ∷ xs = cc in rw same Perm.rfl
    joined-set (t ∷ ts) (suc i) e =
        Perm.trans (Perm.append_left t (joined-set ts i e)) (perm_middle t (joined (set ts i xs)))

    total-set :
        (ss : List (Stream Rest)) (i : ℕ)
        → get_elem? ss i ≡ some (x ∷ xs)
        → total ss ≡ suc (total (set ss i xs))
    total-set [] i e = cc
    total-set (t ∷ ts) zero e = let same : t ≡ x ∷ xs = cc in rw same (omega arith)
    total-set (t ∷ ts) (suc i) e = omega (arith, total-set ts i e)

    IsAfter-All :
        (ss : List (Stream Rest))
        → All (Leads (x ∷ xs)) ss
        → All IsOrdered ss
        → All (IsAfter (rank x.schedule_time)) ss
    IsAfter-All [] h o = tt
    IsAfter-All (s ∷ ss) h o = (one s h.0 o.0, IsAfter-All ss h.1 o.1)
      where
        one : (s : Stream Rest) → Leads (x ∷ xs) s → IsOrdered s → IsAfter (rank x.schedule_time) s
        one [] h o = tt
        one (y ∷ ys) h o = (h, weaken ys o.0)
          where
            weaken :
                (zs : Stream Rest)
                → IsAfter (rank y.schedule_time) zs
                → IsAfter (rank x.schedule_time) zs
            weaken [] k = tt
            weaken (z ∷ zs) k = (omega arith, weaken zs k.1)

  joined-ended : (ss : List (Stream Rest)) → All (Leads []) ss → joined ss ≡ []
  joined-ended [] h = refl
  joined-ended ([] ∷ ss) h = joined-ended ss h.1
  joined-ended ((y ∷ ys) ∷ ss) h = absurd h.0

  Merged : ℕ → List (Stream Rest) → Type 0
  Merged fuel ins =
      (out : Stream Rest) × (fuse_generators fuel ins ≡ ok out)
      × Perm (joined ins) out
      × IsOrdered out
      × ((b : ℕ) → All (IsAfter b) ins → IsAfter b out)

  chosen :
      (ins : List (Stream Rest))
      → 0 < length ins
      → All AreTimed ins
      → (u : Stream Rest) × (get_elem? ins (min_from ins ins 0 0) ≡ some u) × All (Leads u) ins
  chosen [] h timed = elim h [ ]
  chosen (s ∷ ss) h timed = min_from-Leads s ss timed

  merge_step :
      (fuel : ℕ)
      → ((ins : List (Stream Rest))
          → 0 < length ins
          → total ins < fuel
          → All AreTimed ins
          → All IsOrdered ins
          → Merged fuel ins)
      → (ins : List (Stream Rest)) → 0 < length ins
      → total ins < suc fuel
      → All AreTimed ins
      → All IsOrdered ins
      → (u : Stream Rest) → get_elem? ins (min_from ins ins 0 0) ≡ some u
      → All (Leads u) ins
      → Merged (suc fuel) ins
  unfolding fuse_generators Merged
  merge_step fuel again ins h enough timed ordered [] there leads =
      ([], rw (there, fuse_generators) refl, rw (joined-ended ins leads) Perm.rfl, tt, λ b k. tt)
  merge_step fuel again ins h enough timed ordered (x ∷ xs) there leads =
      let m = min_from ins ins 0 0 in
      let timed_u = All-get AreTimed ins m (x ∷ xs) timed there in
      let ordered_u = All-get IsOrdered ins m (x ∷ xs) ordered there in
      let t = total-set x xs ins m there in
      let l = length-set ins m xs in
      let (out, e, p, o, bounds) =
        again (set ins m xs) (omega arith) (omega arith) (All-set AreTimed ins m xs timed timed_u.1)
          (All-set IsOrdered ins m xs ordered ordered_u.1) in
      (
        x ∷ out,
        rw (there, fuse_generators) (rw e refl),
        Perm.trans (joined-set x xs ins m there) (Perm.cons x p),
        (
          bounds (rank x.schedule_time)
              (All-set _ ins m xs (IsAfter-All x xs ins leads ordered) ordered_u.0),
          o,
        ),
        λ b k.
            let k_u = All-get (IsAfter b) ins m (x ∷ xs) k there in
            (k_u.0, bounds b (All-set (IsAfter b) ins m xs k k_u.1)),
      )

  merges :
      (fuel : ℕ) (ins : List (Stream Rest))
      → 0 < length ins
      → total ins < fuel
      → All AreTimed ins
      → All IsOrdered ins
      → Merged fuel ins
  merges zero ins h enough timed ordered = elim enough [ ]
  merges (suc fuel) ins h enough timed ordered =
      let (u, there, leads) = chosen ins h timed in
      merge_step fuel (merges fuel) ins h enough timed ordered u there leads

  -- Given at least one stream, each with times that are numbers and do not fall, and more fuel than
  -- there are elements, `fuseGenerators` sends every element of every stream once, and in the order of
  -- their times.
  pub fuse_generators-merges :
      (fuel : ℕ) (ins : List (Stream Rest))
      → 0 < length ins
      → total ins < fuel
      → All AreTimed ins
      → All IsOrdered ins
      → (out : Stream Rest) × (fuse_generators fuel ins ≡ ok out)
        × Perm (joined ins) out
        × IsOrdered out
  unfolding Merged
  fuse_generators-merges fuel ins h enough timed ordered =
      let (out, e, p, o, bounds) = merges fuel ins h enough timed ordered in (out, e, p, o)
