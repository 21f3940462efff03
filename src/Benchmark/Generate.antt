-- ===== src/Benchmark/Generate.antt =====
-- The generators of core/benchmark.go, one merge in the other.
use diablo.Prelude.{
  ℕ, zero, suc, ◌<◌, ◌≡◌, refl, ap, Option-cases, inl, inr, List, [], ◌∷◌, map, length, get_elem?,
  set, All, All-get, All-set, arith,
}
use mathlib.Core.Path.{subst}
use mathlib.Core.List.{Perm}
use mathlib.Core.List.Perm
use diablo.Wire.Errors.{Result, ok, and_then, and_then-ok}
use diablo.Fuse.{min_from, fuse_generators}
use diablo.Fuse.Least.{Stream, AreTimed}
use diablo.Fuse.Merge.{joined, total, IsOrdered, fuse_generators-merges}
use diablo.Benchmark.{each, fuse_all, generate_client, generate_workload, generate}

module _ {Rest : Type 0} where
  chosen-AreTimed :
      (next : Stream Rest → Result (Stream Rest))
      → ((xs out : Stream Rest) → AreTimed xs → next xs ≡ ok out → AreTimed out)
      → (s out : Stream Rest) → AreTimed s
      → elim s [ [] ↦ ok [] | x ∷ xs ↦ and_then (next xs) (λ rest. ok (x ∷ rest)) ] ≡ ok out
      → AreTimed out
  chosen-AreTimed next again [] out timed h = let same : [] ≡ out = cc in subst AreTimed same tt
  chosen-AreTimed next again (x ∷ xs) out timed h =
      let (rest, (e, same)) = and_then-ok (next xs) (λ rest. ok (x ∷ rest)) h in
      let out_same : x ∷ rest ≡ out = cc in
      subst AreTimed out_same (timed.0, again xs rest timed.1 e)

  fuse_generators-AreTimed :
      (fuel : ℕ) (ins : List (Stream Rest)) (out : Stream Rest)
      → All AreTimed ins
      → fuse_generators fuel ins ≡ ok out
      → AreTimed out
  unfolding fuse_generators
  fuse_generators-AreTimed zero ins out timed = λ h. cc
  fuse_generators-AreTimed (suc fuel) ins out timed =
      let m = min_from ins ins 0 0 in
      elim (Option-cases (get_elem? ins m)) [
        | inl missing ↦ rw (fuse_generators, missing) (λ h. cc)
        | inr (s, there) ↦
            rw (fuse_generators, there)
              (chosen-AreTimed (λ xs. fuse_generators fuel (set ins m xs))
                (λ xs rest timed_xs e.
                  fuse_generators-AreTimed fuel (set ins m xs) rest
                    (All-set AreTimed ins m xs timed timed_xs) e)
                s out (All-get AreTimed ins m s timed there))
      ]

  -- The elements of all streams of a client, of a workload and of the benchmark.
  abbrev pub all_of_client : List (Stream Rest) → Stream Rest
  all_of_client loads = joined loads

  abbrev pub all_of_workload : List (List (Stream Rest)) → Stream Rest
  all_of_workload clients = joined (map all_of_client clients)

  abbrev pub all_of : List (List (List (Stream Rest))) → Stream Rest
  all_of workloads = joined (map all_of_workload workloads)

  -- Every client has a load, and the times of a load are numbers that do not fall; every workload has a
  -- client, and the benchmark has a workload.
  abbrev pub IsFedClient : List (Stream Rest) → Type 0
  IsFedClient loads = (0 < length loads) × All AreTimed loads × All IsOrdered loads

  abbrev pub IsFedWorkload : List (List (Stream Rest)) → Type 0
  IsFedWorkload clients = (0 < length clients) × All IsFedClient clients

  abbrev pub IsFed : List (List (List (Stream Rest))) → Type 0
  IsFed workloads = (0 < length workloads) × All IsFedWorkload workloads

module _ (Rest : Type 0) where
  -- A generator returns the elements of its streams, in the order of their times.
  Merges : {A : Type 0} → (A → Result (Stream Rest)) → (A → Stream Rest) → (A → Type 0) → Type 0
  Merges {A} g flat IsFed =
      (a : A)
      → IsFed a
      → (out : Stream Rest) × (g a ≡ ok out) × Perm (flat a) out × IsOrdered out × AreTimed out

  fuse_all-Merges : Merges fuse_all joined IsFedClient
  unfolding fuse_all Merges
  fuse_all-Merges ins (some_one, timed, ordered) =
      let (out, e, p, o) =
        fuse_generators-merges (suc (total ins)) ins some_one (omega arith) timed ordered in
      (out, e, p, o, fuse_generators-AreTimed (suc (total ins)) ins out timed e)

  each-Merges :
      {A : Type 0} (g : A → Result (Stream Rest)) (flat : A → Stream Rest) (IsFed : A → Type 0)
      → Merges g flat IsFed
      → (xs : List A) → All IsFed xs
      → (outs : List (Stream Rest)) × (each g xs ≡ ok outs)
        × Perm (joined (map flat xs)) (joined outs)
        × All AreTimed outs
        × All IsOrdered outs
        × (length outs ≡ length xs)
  unfolding Merges each
  each-Merges g flat IsFed h [] fed = ([], refl, Perm.rfl, tt, tt, refl)
  each-Merges g flat IsFed h (x ∷ xs) (fed_x, fed_xs) =
      let (out, e, p, o, t) = h x fed_x in
      let (outs, es, ps, ts, os, n) = each-Merges g flat IsFed h xs fed_xs in
      (out ∷ outs, rw (e, es) refl, Perm.append p ps, (t, ts), (o, os), ap suc n)

  -- A generator of generators.
  level-Merges :
      {A : Type 0} (g : A → Result (Stream Rest)) (flat : A → Stream Rest) (IsFed : A → Type 0)
      → Merges g flat IsFed
      → Merges {A = List A}
          (λ xs. and_then (each g xs) fuse_all)
          (λ xs. joined (map flat xs))
          (λ xs. (0 < length xs) × All IsFed xs)
  unfolding Merges
  level-Merges g flat IsFed h xs (some_one, fed) =
      let (outs, e, p, ts, os, n) = each-Merges g flat IsFed h xs fed in
      let (out, e', p', o, t) = fuse_all-Merges outs (omega arith, ts, os) in
      (out, rw e e', Perm.trans p p', o, t)

-- If every load has times that are numbers and do not fall, and no client, workload or benchmark is
-- empty, then the benchmark generates every interaction of every load once, in the order of their times,
-- through its three levels of merges.
pub generate-merges :
    {Rest : Type 0} (workloads : List (List (List (Stream Rest))))
    → IsFed workloads
    → (out : Stream Rest) × (generate workloads ≡ ok out)
      × Perm (all_of workloads) out
      × IsOrdered out
unfolding Merges generate generate_workload generate_client
generate-merges {Rest} workloads fed =
    let level =
      level-Merges Rest generate_workload all_of_workload IsFedWorkload
        (level-Merges Rest generate_client all_of_client IsFedClient (fuse_all-Merges Rest)) in
    let (out, e, p, o, t) = level workloads fed in (out, e, p, o)
