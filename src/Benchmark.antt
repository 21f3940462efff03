-- ===== src/Benchmark.antt =====
-- core/benchmark.go: how the interactions of a benchmark are generated and given to the secondaries.
-- The goroutines of `generate` only pass elements on, so what comes out is that of running one after
-- the other.
pub mod Generate
pub mod Commands
use diablo.Prelude.{ℕ, suc, Option, none, some, List, [], ◌∷◌, Bytes, pos, get_elem?, set}
use diablo.Float.{Float64}
use diablo.Wire.Errors.{Error, Result, ok, err, and_then, index_out_of_range}
use diablo.Fuse.{BenchmarkInteraction, fuse_generators}
use diablo.Fuse.Least.{Stream}
use diablo.Fuse.Merge.{total}
use diablo.Primary.{RemoteSecondary, send_interaction}

-- The loop over the generators of one level.
unfoldable pub each {ℓ κ} : {A : Type ℓ} {B : Type κ} → (A → Result B) → List A → Result (List B)
each f [] = ok []
each f (x ∷ xs) = let rest = each f xs in and_then (f x) (λ b. and_then rest (λ bs. ok (b ∷ bs)))

module _ {Rest : Type 0} where
  -- `fuseGenerators` with fuel for every element.
  unfoldable pub fuse_all : List (Stream Rest) → Result (Stream Rest)
  fuse_all ins = fuse_generators (suc (total ins)) ins

  -- `generate` of a client, of a workload and of the benchmark.
  unfoldable pub generate_client : List (Stream Rest) → Result (Stream Rest)
  unfolding fuse_all
  generate_client loads = fuse_all loads

  unfoldable pub generate_workload : List (List (Stream Rest)) → Result (Stream Rest)
  unfolding each fuse_all generate_client
  generate_workload client_loads = and_then (each generate_client client_loads) fuse_all

  unfoldable pub generate : List (List (List (Stream Rest))) → Result (Stream Rest)
  unfolding each fuse_all generate_workload
  generate workloads = and_then (each generate_workload workloads) fuse_all

-- What an interaction is sent with: its secondary, the client of this secondary, the position of the
-- expression that describes it, and what its factory reads.
pub record Task (Source : Type 0) : Type 0 where
  pub secondary : ℕ
  pub client : ℕ
  pub kind : Bytes
  pub source : Source

-- `sendInteraction` of a client of one of the secondaries.
unfoldable pub send_to :
    ℕ → ℕ → Bytes → Float64 → Bytes → List RemoteSecondary → Option Error × List RemoteSecondary
send_to j id kind time encoded secondaries = elim (get_elem? secondaries j) [
  | none ↦ (some (index_out_of_range (pos j)), secondaries)
  | some s ↦ let (e, s') = send_interaction id kind time encoded s in (e, set secondaries j s')
]

-- `instantiate`: the factory encodes each interaction, told its number and its time, in a state of the
-- scopes that it changes; the first error ends the loop.
module _ {Source State : Type 0}
    (instance_of : Source → ℕ → Float64 → State → Result Bytes × State) where
  unfoldable pub instantiate :
      ℕ
      → Stream (Task Source)
      → State
      → List RemoteSecondary
      → Option Error × (State × List RemoteSecondary)
  unfolding send_to
  instantiate global_index [] state secondaries = (none, (state, secondaries))
  instantiate global_index (x ∷ xs) state secondaries =
      let t = x.rest in
      let (encoded, state') = instance_of t.source global_index x.schedule_time state in
      elim encoded [
        | err e ↦ (some e, (state', secondaries))
        | ok b ↦
            let (e, secondaries') =
              send_to t.secondary t.client t.kind x.schedule_time b secondaries in
            let rest = instantiate (suc global_index) xs state' secondaries' in
            elim e [ some e' ↦ (some e', (state', secondaries')) | none ↦ rest ]
      ]
