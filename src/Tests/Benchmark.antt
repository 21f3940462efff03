-- ===== src/Tests/Benchmark.antt =====
-- A benchmark of two loads whose interactions go to two secondaries.
use diablo.Prelude.{
  ℕ, ◌<◌, ◌≡◌, refl, none, some, List, [], ◌∷◌, Bytes, suc, zero, get_elem?, lookup, insert, arith,
}
use mathlib.Core.List.{Perm}
use diablo.Float.{is_nan, lt_float, IsNumber, rank}
use diablo.Wire.Errors.{Result, ok}
use diablo.Wire.Sink.{guarded, emit, write}
use diablo.Wire.Little.{byte, little}
use diablo.Message.Prepare.{encode_prepare, check_interaction, interaction_chunks}
use diablo.Fuse.{BenchmarkInteraction}
use diablo.Fuse.Least.{Stream}
use diablo.Fuse.Merge.{IsOrdered}
use diablo.Primary.{
  RemoteSecondary, new_remote_client, send_interaction, schedule, number_kind, extend_time,
}
use diablo.Primary.Script.{send, perform_all, perform}
use diablo.Benchmark.{Task, generate, instantiate}
use diablo.Benchmark.Generate.{IsFed, all_of, generate-merges}
use diablo.Benchmark.Commands.{commands, AreEncoded, instantiate-perform_all}

abbrev task : ℕ → ℕ → BenchmarkInteraction (Task ℕ)
task t j = record {
  schedule_time = t;
  rest = record { secondary = j; client = 0; kind = 107 ∷ []; source = 7 };
}

abbrev two_workloads : List (List (List (Stream (Task ℕ))))
two_workloads = (((task 1 0 ∷ task 4 1 ∷ []) ∷ (task 2 1 ∷ []) ∷ []) ∷ []) ∷ []

few-IsNumber : (t : ℕ) → t < 10 → IsNumber t
unfolding is_nan
few-IsNumber t h = ground arith

two_workloads-IsFed : IsFed two_workloads
unfolding rank
two_workloads-IsFed = (
  omega arith,
  (
    (
      omega arith,
      (
        (
          omega arith,
          (
            (few-IsNumber 1 (omega arith), (few-IsNumber 4 (omega arith), tt)),
            ((few-IsNumber 2 (omega arith), tt), tt),
          ),
          (((omega arith, tt), (tt, tt)), ((tt, tt), tt)),
        ),
        tt,
      ),
    ),
    tt,
  ),
)

generate-merges_example :
    (out : Stream (Task ℕ)) × (generate two_workloads ≡ ok out)
    × Perm (all_of two_workloads) out
    × IsOrdered out
generate-merges_example = generate-merges two_workloads two_workloads-IsFed

-- A factory that counts what it encoded in its state.
abbrev counting : ℕ → ℕ → ℕ → ℕ → Result Bytes × ℕ
counting source i time state = (ok (source ∷ i ∷ state ∷ []), suc state)

abbrev in_order : Stream (Task ℕ)
in_order = task 1 0 ∷ task 2 1 ∷ task 4 1 ∷ []

abbrev secondary : RemoteSecondary
secondary = record {
  addr = 97 ∷ [];
  tags = [];
  clients = new_remote_client 0 (99 ∷ []) ∷ [];
  out = record { written = []; room = 100 };
}

abbrev both : List RemoteSecondary
both = secondary ∷ secondary ∷ []

both-accept :
    (j : ℕ) (s : RemoteSecondary)
    → get_elem? both j ≡ some s
    → (perform_all (commands counting 0 in_order 0 j) s).0 ≡ none
unfolding perform_all perform commands send_interaction encode_prepare guarded check_interaction
    schedule number_kind lookup extend_time lt_float is_nan rank new_remote_client emit
    interaction_chunks write byte little insert
both-accept zero s h = let same : secondary ≡ s = cc in rw (← same) refl
both-accept (suc zero) s h = let same : secondary ≡ s = cc in rw (← same) refl
both-accept (suc (suc j)) s h = cc

instantiate-perform_all_example :
    (state' : ℕ) × ((secondaries' : List RemoteSecondary) × ((instantiate counting 0 in_order 0 both
          ≡ (none, (state', secondaries')))
        × (get_elem? secondaries' 1
            ≡ some (perform_all (commands counting 0 in_order 0 1) secondary).1)))
unfolding AreEncoded
instantiate-perform_all_example =
    instantiate-perform_all counting 0 in_order 0 both
      ((7 ∷ 0 ∷ 0 ∷ [], refl), ((7 ∷ 1 ∷ 1 ∷ [], refl), ((7 ∷ 2 ∷ 2 ∷ [], refl), tt)))
      (omega arith, (omega arith, (omega arith, tt))) both-accept 1 secondary refl

-- The second secondary gets the interactions with the numbers 1 and 2.
second_commands :
    commands counting 0 in_order 0 1
    ≡ send 0 (107 ∷ []) 2 (7 ∷ 1 ∷ 1 ∷ []) ∷ send 0 (107 ∷ []) 4 (7 ∷ 2 ∷ 2 ∷ []) ∷ []
unfolding commands
second_commands = refl
