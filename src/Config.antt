-- ===== src/Config.antt =====
-- core/configs: the configuration of a benchmark and core/configs/validators/benchvalidator.go, which
-- checks it. `stat` is `os.Stat` of a path: whether it is a directory, or `none` for an error.
pub mod Valid
use diablo.Prelude.{
  ℕ, Bool, true, false, Option, none, some, List, [], ◌∷◌, Bytes, ℤ, pos, negsuc, leb_ℤ, Map,
  if◌then◌else◌,
}

-- TxTypeSimple and the others; `unset` is the empty string of a file that names no type.
pub data BenchTransactionType : Type 0 where
  simple contract premade test aviation contention unset : BenchTransactionType

pub record ContractParam : Type 0 where
  pub type_name : Bytes
  pub value : Bytes

pub record ContractFunction : Type 0 where
  pub name : Bytes
  pub ftype : Bytes
  pub ratio : ℤ
  pub pay_value : Bytes
  pub params : List ContractParam

-- `none` for a nil slice of functions.
pub record ContractInfo : Type 0 where
  pub path : Bytes
  pub name : Bytes
  pub functions : Option (List ContractFunction)

pub record BenchInfo : Type 0 where
  pub tx_type : BenchTransactionType
  pub data_path : Bytes
  pub intervals : Map ℤ ℤ

pub record BenchConfig : Type 0 where
  pub name : Bytes
  pub path : Bytes
  pub description : Bytes
  pub threads : ℤ
  pub secondaries : ℤ
  pub timeout : ℤ
  pub tx_info : BenchInfo
  pub contract_info : ContractInfo

pub data ConfigError : Type 0 where
  missing_name few_secondaries few_threads : ConfigError
  empty_contract_info empty_path stat_failed path_is_directory no_functions : ConfigError
  no_data_path no_intervals : ConfigError
  negative_key : ℤ → ConfigError
  negative_value : ℤ → ℤ → ConfigError

abbrev pub is_empty {ℓ} : {A : Type ℓ} → List A → Bool
is_empty [] = true
is_empty (x ∷ xs) = false

abbrev pub is_negative : ℤ → Bool
is_negative (pos n) = false
is_negative (negsuc n) = true

abbrev pub is_contract : BenchTransactionType → Bool
is_contract contract = true
is_contract _ = false

abbrev pub is_premade : BenchTransactionType → Bool
is_premade premade = true
is_premade _ = false

-- `len` of a slice is 0, and the slice is nil.
abbrev pub has_no_functions : Option (List ContractFunction) → Bool
has_no_functions none = true
has_no_functions (some fs) = is_empty fs

abbrev pub is_nil {ℓ} : {A : Type ℓ} → Option A → Bool
is_nil none = true
is_nil (some a) = false

unfoldable pub check_intervals : Map ℤ ℤ → Option ConfigError
check_intervals [] = none
check_intervals ((k, v) ∷ m) =
    if is_negative k
    then some (negative_key k)
    else if is_negative v
    then some (negative_value v k)
    else check_intervals m

module _ (stat : Bytes → Option Bool) where
  -- The path of the contract.
  unfoldable pub check_stat : ContractInfo → Option ConfigError
  check_stat c = elim (stat c.path) [
    | none ↦ some stat_failed
    | some is_dir ↦
        if is_dir
        then some path_is_directory
        else if has_no_functions c.functions
        then some no_functions
        else none
  ]

  unfoldable pub check_contract : ContractInfo → Option ConfigError
  unfolding check_stat
  check_contract c =
      if (if is_empty c.path then if is_empty c.name then is_nil c.functions else false else false)
      then some empty_contract_info
      else if is_empty c.path
      then some empty_path
      else check_stat c

  -- The checks that depend on the type of the transactions.
  unfoldable pub check_type : BenchConfig → Option ConfigError
  unfolding check_contract
  check_type c =
      if is_contract c.tx_info.tx_type
      then check_contract c.contract_info
      else if is_premade c.tx_info.tx_type
      then if is_empty c.tx_info.data_path then some no_data_path else none
      else none

  -- `ValidateBenchConfig`; the warning for a missing description is left out.
  unfoldable pub validate_bench_config : BenchConfig → Option ConfigError
  unfolding check_type check_intervals
  validate_bench_config c =
      if is_empty c.name
      then some missing_name
      else if leb_ℤ 1 c.secondaries
      then if leb_ℤ 1 c.threads
        then elim (check_type c) [
          | some e ↦ some e
          | none ↦
              if is_empty c.tx_info.intervals
              then some no_intervals
              else check_intervals c.tx_info.intervals
        ]
        else some few_threads
      else some few_secondaries
