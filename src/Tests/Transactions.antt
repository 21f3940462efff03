-- ===== src/Tests/Transactions.antt =====
-- Transactions of Ethereum at concrete inputs.
use diablo.Prelude.{
  ℕ, ◌+◌, ◌%◌, ◌^◌, ◌≡◌, refl, Bool, true, false, none, some, List, [], ◌∷◌, bytes_key, pos, lookup,
  insert, length, arith,
}
use diablo.Variable
use diablo.Wire.Errors.{Result, ok}
use diablo.Wire.Sink.{frame}
use diablo.Message.Strings.{Decides}
use diablo.Ethereum.{TxData}
use diablo.Ethereum.Nonce.{NonceManager, next_nonce, get_nonce, slot_of, probe, offset_from}
use diablo.Ethereum.Nonce.Stable.{Call, calls, next_nonce-stable}
use diablo.Ethereum.Parameters.{Node, Parameters, static, get_params}
use diablo.Ethereum.Transaction.{
  TransferTransaction, transfer, decode_transaction, check_transfer, transfer_chunks,
}
use diablo.Ethereum.Transaction.RoundTrip.{
  Fits, encode_transaction, encode_transaction-decode_transaction,
}
use diablo.Ethereum.Signing.{Shared, get_tx, fetch, sign}
use diablo.Ethereum.Builder.{
  Application, receipt, not_found, Account, Builder, create_contract, encode_transfer,
}
use diablo.Ethereum.Builder.Nonces.{
  Call as EncodeCall, transfer_call, nonce_in, nonces_of, encode_all, count_from, encode_all-nonces,
}
use diablo.Ethereum.Builder.Deployments.{Deployment, deploy_all, deploy_all-gap}
use diablo.Tests.Toy.{twenty, toy, toy-IsDocumented}

abbrev payment : TransferTransaction toy
payment = record { nonce = 3; amount = 70; from = 1 ∷ 9 ∷ []; to = false }

encode_transaction-decode_transaction_example :
    Decides
      (Fits toy (transfer payment))
      (encode_transaction toy (transfer payment))
      (decode_transaction toy)
      (transfer payment)
encode_transaction-decode_transaction_example =
    encode_transaction-decode_transaction toy toy-IsDocumented (transfer payment) (omega arith)

-- The account counts from 40.
abbrev known : NonceManager
known = (twenty 1, record { synced = true; base = 40 }) ∷ []

abbrev no_answers : Node
no_answers = record { pending = ok 0; network_id = ok (pos 0); suggested_price = ok (pos 0) }

next_nonce-stable_example :
    (b : ℕ) × (43 ≡ (b + 3) % 2 ^ 64)
    × ((cs : List Call) (offset' : ℕ) (pending' : Result ℕ)
        → (next_nonce (twenty 1) offset' pending' (calls cs known)).0 ≡ ok ((b + offset') % 2 ^ 64))
unfolding next_nonce get_nonce slot_of probe offset_from lookup insert
next_nonce-stable_example = next_nonce-stable (twenty 1) 3 43 (ok 50) known known refl

abbrev prices : Parameters
prices = record { chain_id = pos 7; gas_limit = 2000000; gas_price = pos 5 }

abbrev ready : Shared
ready = record { manager = known; provider = static prices }

abbrev signed_payment : TxData Bool
signed_payment = record {
  nonce = 43;
  to = some false;
  amount = pos 70;
  gas_limit = 21000;
  gas_price = pos 5;
  payload = [];
}

abbrev one_more : TransferTransaction toy
one_more = record { nonce = 1; amount = 5; from = 1 ∷ 9 ∷ []; to = false }

abbrev payer_account : Account toy
payer_account = record { address = true; private = 1 ∷ 9 ∷ []; nonce = 0 }

abbrev code : Application
code = record { text = 96 ∷ []; entries = [] }

abbrev builder : Builder toy
builder = record {
  premade = payer_account ∷ [];
  used = 0;
  compilers = (λ name. ok code) ∷ [];
  applications = [];
  shared = record { manager = []; provider = static prices };
}

abbrev two_payments : List (EncodeCall toy)
two_payments = transfer_call (pos 5) 0 false ∷ transfer_call (pos 6) 0 true ∷ []

encode_all-nonces_example :
    nonces_of toy 0 (encode_all toy (λ s. ok s) two_payments builder)
    ≡ count_from 0 (length (nonces_of toy 0 (encode_all toy (λ s. ok s) two_payments builder)))
encode_all-nonces_example =
    encode_all-nonces toy (λ s. ok s) toy-IsDocumented two_payments builder 0 payer_account refl
      (omega arith)

abbrev deployment : Deployment toy
deployment = record {
  name = 99 ∷ [];
  node = record { pending = ok 40; network_id = ok (pos 7); suggested_price = ok (pos 5) };
  send = none;
  polls = not_found ∷ receipt false ∷ [];
}

abbrev deployed_builder : Builder toy
deployed_builder = record {
  premade = record { address = true; private = 1 ∷ 9 ∷ []; nonce = 1 } ∷ [];
  used = 0;
  compilers = (λ name. ok code) ∷ [];
  applications = (99 ∷ [], code) ∷ [];
  shared = ready;
}

deployed_builder_lem : deploy_all toy (deployment ∷ []) builder ≡ ok deployed_builder
unfolding deploy_all create_contract get_tx fetch sign next_nonce get_nonce slot_of probe get_params
    lookup insert offset_from
deployed_builder_lem = refl

deploy_all-gap_example :
    (nonce_in toy (frame (transfer_chunks toy one_more)) ≡ some 1)
    × ((next_nonce (twenty 1) 1 (ok (40 + 1)) []).0 ≡ ok (40 + 1 + 1))
unfolding encode_transfer check_transfer
deploy_all-gap_example =
    deploy_all-gap toy toy-IsDocumented (deployment ∷ []) builder deployed_builder payer_account
      (pos 5) false refl refl deployed_builder_lem (frame (transfer_chunks toy one_more)) refl
      (twenty 1) 40 (omega arith)
