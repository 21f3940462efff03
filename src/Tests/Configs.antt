-- ===== src/Tests/Configs.antt =====
-- The workload, its producer and the configuration at concrete inputs.
use diablo.Prelude.{ℕ, ◌≡◌, none, [], ◌∷◌, ◌++◌, pos, ◌==◌, ◌&&◌, if◌then◌else◌}
use diablo.Wire.Errors.{ok, err, index_out_of_range}
use diablo.Producer.{workload_producer, flat, workload_producer-flat}
use diablo.Workload.{Workload, workload_add}
use diablo.Workload.Add.{transactions, transactions-workload_add}
use diablo.Config.{BenchConfig, premade}

abbrev one_transaction : Workload
one_transaction = ((((1 ∷ []) ∷ []) ∷ []) ∷ []) ∷ [] ∷ []

transactions-workload_add_example :
    transactions (workload_add 0 0 2 (7 ∷ []) one_transaction) 0 0 2 ≡ (
      if (0 == 0) && (0 == 0) && (2 == 2)
      then transactions one_transaction 0 0 2 ++ (7 ∷ []) ∷ []
      else transactions one_transaction 0 0 2)
transactions-workload_add_example = transactions-workload_add 0 0 2 (7 ∷ []) one_transaction 0 0 2

workload_producer-flat_example :
    (workload_producer {A = ℕ} ((1 ∷ []) ∷ (2 ∷ 3 ∷ []) ∷ [])
      ≡ ok (flat ((1 ∷ []) ∷ (2 ∷ 3 ∷ []) ∷ [])))
    × (workload_producer {A = ℕ} ((1 ∷ []) ∷ []) ≡ err (index_out_of_range (pos 1)))
    × (workload_producer {A = ℕ} [] ≡ err (index_out_of_range (pos 0)))
workload_producer-flat_example = workload_producer-flat (1 ∷ []) (2 ∷ 3 ∷ []) []

abbrev premade_config : BenchConfig
premade_config = record {
  name = 98 ∷ [];
  path = [];
  description = [];
  threads = pos 2;
  secondaries = pos 1;
  timeout = pos 20;
  tx_info = record { tx_type = premade; data_path = 100 ∷ []; intervals = (pos 0, pos 10) ∷ [] };
  contract_info = record { path = []; name = []; functions = none };
}
