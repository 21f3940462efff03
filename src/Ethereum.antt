-- ===== src/Ethereum.antt =====
-- The client of Ethereum, blockchains/nethereum. What it takes from go-ethereum is `Library`.
pub mod Transaction
pub mod Nonce
pub mod Parameters
pub mod Signing
pub mod Builder
pub mod Confirmer
pub mod Client
use diablo.Prelude.{ℕ, ◌≡◌, Option, Bytes, ℤ, length}
use diablo.Wire.Errors.{Result, ok}

-- What is passed to `types.NewTransaction`, or to `types.NewContractCreation` where there is no
-- receiver.
pub record TxData (Address : Type 0) : Type 0 where
  pub nonce : ℕ
  pub to : Option Address
  pub amount : ℤ
  pub gas_limit : ℕ
  pub gas_price : ℤ
  pub payload : Bytes

-- go-ethereum: private keys, addresses, and transactions that are signed.
pub record Library : Type 1 where
  pub PrivateKey : Type 0
  pub Address : Type 0
  pub SignedTx : Type 0
  pub from_ecdsa : PrivateKey → Bytes
  pub to_ecdsa : Bytes → Result PrivateKey
  pub address_bytes : Address → Bytes
  pub bytes_to_address : Bytes → Address
  pub address_string : Address → Bytes
  pub pubkey_to_address : PrivateKey → Address
  pub sign_tx : TxData Address → ℤ → PrivateKey → Result SignedTx
  pub hash : SignedTx → Bytes

-- `common.AddressLength`
abbrev pub address_length : ℕ
address_length = 20

-- What its documentation says of the bytes of keys and addresses.
pub record IsDocumented (eth : Library) : Type 0 where
  pub key_bytes : (k : eth.PrivateKey) → eth.to_ecdsa (eth.from_ecdsa k) ≡ ok k
  pub address_length : (a : eth.Address) → length (eth.address_bytes a) ≡ address_length
  pub address_bytes : (a : eth.Address) → eth.bytes_to_address (eth.address_bytes a) ≡ a
