-- ===== src/Ethereum/Parameters.antt =====
-- blockchains/nethereum/transaction.go: the chain and the prices that a transaction is made with, and the
-- providers of them. A provider asks the node each time, at its first use, or never.
use diablo.Prelude.{ℕ, Option, none, some, ℤ}
use diablo.Wire.Errors.{Result, ok, err, and_then}

-- What the node answers to a client at one moment: `PendingNonceAt` for the account at hand,
-- `NetworkID` and `SuggestGasPrice`.
pub record Node : Type 0 where
  pub pending : Result ℕ
  pub network_id : Result ℤ
  pub suggested_price : Result ℤ

pub record Parameters : Type 0 where
  pub chain_id : ℤ
  pub gas_limit : ℕ
  pub gas_price : ℤ

-- The lazy one has what it got at its first use.
pub data ParameterProvider : Type 0 where
  static : Parameters → ParameterProvider
  once : Option Parameters → ParameterProvider
  direct : ParameterProvider

-- The gas of an invocation or a deployment.
abbrev pub transaction_gas_limit : ℕ
transaction_gas_limit = 2000000

-- `getParams` of a directParameterProvider.
unfoldable pub direct_params : Node → Result Parameters
direct_params node = and_then node.network_id (λ chain_id.
    and_then node.suggested_price (λ gas_price.
      ok
        (record { chain_id = chain_id; gas_limit = transaction_gas_limit; gas_price = gas_price })))

-- What a lazyParameterProvider keeps of an answer.
unfoldable pub keep_params : Result Parameters → ParameterProvider
keep_params (ok p) = once (some p)
keep_params (err e) = once none

unfoldable pub get_params : Node → ParameterProvider → Result Parameters × ParameterProvider
unfolding keep_params
get_params node (static p) = (ok p, static p)
get_params node (once (some p)) = (ok p, once (some p))
get_params node (once none) = (direct_params node, keep_params (direct_params node))
get_params node direct = (direct_params node, direct)

-- `makeStaticParameterProvider`
unfoldable pub make_static : Node → Result ParameterProvider
make_static node = and_then (direct_params node) (λ p. ok (static p))
