-- ===== src/Report.antt =====
-- core/result.go: the results of a benchmark, grouped by secondary and by client.
pub mod Grouping
use diablo.Prelude.{
  ℕ, zero, suc, ◌+◌, Bool, Option, none, some, List, [], ◌∷◌, ◌++◌, Bytes, ℤ, int_key, Map, lookup,
  insert, length, get_elem?,
}
use diablo.Float.{Float64}

pub record InteractionResult : Type 0 where
  pub kind : Bytes
  pub submit_time : Float64
  pub commit_time : Float64
  pub abort_time : Float64
  pub has_error : Bool

pub record ClientResult : Type 0 where
  pub index : ℤ
  pub kind : Bytes
  pub interactions : List InteractionResult

-- `ids` maps a client's id to the position of its result in `clients`.
pub record SecondaryResult : Type 0 where
  pub address : Bytes
  pub tags : List Bytes
  pub ids : Map ℤ ℕ
  pub clients : List ClientResult

pub record BenchmarkResult : Type 0 where
  pub seed : ℤ
  pub locations : List SecondaryResult

unfoldable pub new_result : ℤ → BenchmarkResult
new_result master_seed = record { seed = master_seed; locations = [] }

unfoldable pub add_secondary : SecondaryResult → BenchmarkResult → BenchmarkResult
add_secondary s r = record r { locations = r.locations ++ s ∷ [] }

unfoldable pub new_secondary_result : Bytes → List Bytes → SecondaryResult
new_secondary_result addr tags = record { address = addr; tags = tags; ids = []; clients = [] }

-- `getClientResult`: the position of the client's result, which is created if it is not there.
unfoldable pub get_client_result : ℤ → Bytes → SecondaryResult → ℕ × SecondaryResult
get_client_result id kind s = elim (lookup id s.ids) [
  | some offset ↦ (offset, s)
  | none ↦ (
    length s.clients,
    record s {
      ids = insert id (length s.clients) s.ids;
      clients = s.clients ++ record { index = id; kind = kind; interactions = [] } ∷ [];
    },
  )
]

-- `client.Interactions = append(client.Interactions, r)` through the pointer to the client's result.
unfoldable pub append_interaction : List ClientResult → ℕ → InteractionResult → List ClientResult
append_interaction [] offset r = []
append_interaction (c ∷ cs) zero r = record c { interactions = c.interactions ++ r ∷ [] } ∷ cs
append_interaction (c ∷ cs) (suc offset) r = c ∷ append_interaction cs offset r

unfoldable pub add_result : ℤ → Bytes → InteractionResult → SecondaryResult → SecondaryResult
add_result id client_kind r s =
    let (offset, s') = get_client_result id client_kind s in
    record s' { clients = append_interaction s'.clients offset r }
