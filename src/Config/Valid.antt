-- ===== src/Config/Valid.antt =====
-- Which configurations core/configs/validators/benchvalidator.go accepts.
use diablo.Prelude.{◌≡◌, Bool, true, false, Option, some, [], ◌∷◌, Bytes, ℤ, leb_ℤ, Map}
use diablo.Config.{
  BenchConfig, ContractInfo, is_empty, is_negative, is_contract, is_premade, has_no_functions,
}

-- No rate and no time is negative.
abbrev pub AreNatural : Map ℤ ℤ → Type 0
AreNatural [] = Unit
AreNatural ((k, v) ∷ m) = (is_negative k ≡ false) × (is_negative v ≡ false) × AreNatural m

-- The contract is in a file, and has functions.
abbrev pub IsContract : (Bytes → Option Bool) → ContractInfo → Type 0
IsContract stat c =
    (is_empty c.path ≡ false) × (stat c.path ≡ some false) × (has_no_functions c.functions ≡ false)

-- What the type of the transactions asks for.
abbrev pub IsTyped : (Bytes → Option Bool) → BenchConfig → Type 0
IsTyped stat c =
    ((is_contract c.tx_info.tx_type ≡ true) → IsContract stat c.contract_info)
    × ((is_premade c.tx_info.tx_type ≡ true) → is_empty c.tx_info.data_path ≡ false)

pub record IsValid (stat : Bytes → Option Bool) (c : BenchConfig) : Type 0 where
  pub named : is_empty c.name ≡ false
  pub secondaries : leb_ℤ 1 c.secondaries ≡ true
  pub threads : leb_ℤ 1 c.threads ≡ true
  pub typed : IsTyped stat c
  pub some_intervals : is_empty c.tx_info.intervals ≡ false
  pub natural : AreNatural c.tx_info.intervals
