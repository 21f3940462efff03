-- ===== src/Ethereum/Signing.antt =====
-- blockchains/nethereum/transaction.go: a transaction that becomes a signed one when it is asked for.
use diablo.Prelude.{ℕ, Option, none, some, [], Bytes, ℤ, pos}
use diablo.Wire.Errors.{Result, ok, err}
use diablo.Variable.{to_int}
use diablo.Ethereum.{Library, TxData}
use diablo.Ethereum.Nonce.{NonceManager, next_nonce}
use diablo.Ethereum.Parameters.{Node, Parameters, ParameterProvider, get_params}
use diablo.Ethereum.Transaction.{TransferTransaction, InvokeTransaction, Decoded, transfer, invoke}

-- The nonce manager and the parameter provider, which the transactions of a client share.
pub record Shared : Type 0 where
  pub manager : NonceManager
  pub provider : ParameterProvider

-- A nonce and then the parameters, the two calls that every `getTx` makes first.
unfoldable pub with_params :
    Node → ℕ → Result ℕ × NonceManager → ParameterProvider → Result (ℕ × Parameters) × Shared
with_params node offset (err e, m) provider = (err e, record { manager = m; provider = provider })
with_params node offset (ok nonce, m) provider =
    let (r, provider') = get_params node provider in
    let after : Shared = record { manager = m; provider = provider' } in
    elim r [ err e ↦ (err e, after) | ok params ↦ (ok (nonce, params), after) ]

module _ (eth : Library) where
  open eth use {PrivateKey, Address, SignedTx, pubkey_to_address, address_string, sign_tx}

  -- `deployContractTransaction`, with the text of its application.
  pub record DeployTransaction : Type 0 where
    pub nonce : ℕ
    pub text : Bytes
    pub from : PrivateKey

  pub data VirtualTransaction : Type 0 where
    signed : SignedTx → VirtualTransaction
    unsigned : ℤ → TxData Address → PrivateKey → VirtualTransaction
    transferring : TransferTransaction eth → VirtualTransaction
    invoking : InvokeTransaction eth → VirtualTransaction
    deploying : DeployTransaction → VirtualTransaction

  unfoldable pub fetch : Node → PrivateKey → ℕ → Shared → Result (ℕ × Parameters) × Shared
  unfolding with_params
  fetch node from offset w =
      with_params node offset
        (next_nonce (address_string (pubkey_to_address from)) offset node.pending w.manager)
        w.provider

  -- `getTx` of an unsignedTransaction, and then of the signed one.
  unfoldable pub sign : ℤ → TxData Address → PrivateKey → VirtualTransaction × Result SignedTx
  sign chain tx from = elim (sign_tx tx chain from) [
    | err e ↦ (unsigned chain tx from, err e)
    | ok stx ↦ (signed stx, ok stx)
  ]

  unfoldable pub transfer_data : TransferTransaction eth → ℕ → Parameters → TxData Address
  transfer_data t nonce params = record {
    nonce = nonce;
    to = some t.to;
    amount = to_int (pos t.amount);
    gas_limit = 21000;
    gas_price = params.gas_price;
    payload = [];
  }

  unfoldable pub invoke_data : InvokeTransaction eth → ℕ → Parameters → TxData Address
  invoke_data t nonce params = record {
    nonce = nonce;
    to = some t.appid;
    amount = pos 0;
    gas_limit = params.gas_limit;
    gas_price = params.gas_price;
    payload = t.payload;
  }

  unfoldable pub deploy_data : DeployTransaction → ℕ → Parameters → TxData Address
  deploy_data t nonce params = record {
    nonce = nonce;
    to = none;
    amount = pos 0;
    gas_limit = params.gas_limit;
    gas_price = params.gas_price;
    payload = t.text;
  }

  -- What follows the two calls: the transaction itself on an error of theirs, the signature else.
  unfoldable pub sign_with :
      VirtualTransaction
      → (ℕ → Parameters → TxData Address)
      → PrivateKey
      → Result (ℕ × Parameters)
      → VirtualTransaction × Result SignedTx
  unfolding sign
  sign_with this make from (err e) = (this, err e)
  sign_with this make from (ok (nonce, params)) = sign params.chain_id (make nonce params) from

  unfoldable pub get_tx :
      Node → VirtualTransaction → Shared → (VirtualTransaction × Result SignedTx) × Shared
  unfolding sign_with transfer_data invoke_data deploy_data
  get_tx node (signed stx) w = ((signed stx, ok stx), w)
  get_tx node (unsigned chain tx from) w = (sign chain tx from, w)
  get_tx node (transferring t) w =
      let (r, w') = fetch node t.from t.nonce w in
      (sign_with (transferring t) (transfer_data t) t.from r, w')
  get_tx node (invoking t) w =
      let (r, w') = fetch node t.from t.nonce w in
      (sign_with (invoking t) (invoke_data t) t.from r, w')
  get_tx node (deploying t) w =
      let (r, w') = fetch node t.from t.nonce w in
      (sign_with (deploying t) (deploy_data t) t.from r, w')

  -- `decodeTransaction` wraps what it read.
  unfoldable pub virtual_of : Decoded eth → VirtualTransaction
  virtual_of (transfer t) = transferring t
  virtual_of (invoke t) = invoking t

  -- A lazyTransaction around an outerTransaction: `sync.OnceValues` keeps the first result, an error
  -- too.
  pub record LazyTransaction : Type 0 where
    pub inner : VirtualTransaction
    pub result : Option (Result SignedTx)

  unfoldable pub lazy : VirtualTransaction → LazyTransaction
  lazy v = record { inner = v; result = none }

  unfoldable pub first_get :
      (VirtualTransaction × Result SignedTx) × Shared → Result SignedTx × LazyTransaction × Shared
  first_get ((v, r), w) = (r, record { inner = v; result = some r }, w)

  unfoldable pub get_lazy :
      Node → LazyTransaction → Shared → Result SignedTx × LazyTransaction × Shared
  unfolding first_get
  get_lazy node t w = elim t.result [
    | some r ↦ (r, t, w)
    | none ↦ first_get (get_tx node t.inner w)
  ]
