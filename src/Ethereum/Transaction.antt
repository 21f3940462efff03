-- ===== src/Ethereum/Transaction.antt =====
-- blockchains/nethereum/transaction.go: transfers and invocations, and the bytes that the builder sends to a
-- client for them.
pub mod RoundTrip
use diablo.Prelude.{
  ℕ, ◌%◌, ◌^◌, Option, none, some, List, [], ◌∷◌, Bytes, length, ltb, ◌==◌, if◌then◌else◌,
}
use diablo.Wire.Errors.{Error, private_key_too_long, arguments_too_large, unknown_transaction_type}
use diablo.Wire.Sink.{Writer, guarded}
use diablo.Wire.Source.{Parser, ◌>>=◌, pure, fail, lift}
use diablo.Util.{
  IntType, read_uint8, read_uint16, read_uint64, read_bytes, write_uint8, write_uint16,
  write_uint64,
}
use diablo.Ethereum.{Library, address_length}

-- transaction_type_transfer and transaction_type_invoke
abbrev pub type_transfer : ℕ
type_transfer = 0

abbrev pub type_invoke : ℕ
type_invoke = 1

module _ (eth : Library) where
  open eth use {PrivateKey, Address, from_ecdsa, to_ecdsa, address_bytes, bytes_to_address}

  pub record TransferTransaction : Type 0 where
    pub nonce : ℕ
    pub amount : ℕ
    pub from : PrivateKey
    pub to : Address

  pub record InvokeTransaction : Type 0 where
    pub nonce : ℕ
    pub from : PrivateKey
    pub appid : Address
    pub payload : Bytes

  -- What `decodeTransaction` finds.
  pub data Decoded : Type 0 where
    transfer : TransferTransaction → Decoded
    invoke : InvokeTransaction → Decoded

  unfoldable pub check_transfer : TransferTransaction → Option Error
  check_transfer t =
      let from = from_ecdsa t.from in
      if ltb 255 (length from) then some (private_key_too_long (length from)) else none

  unfoldable pub transfer_chunks : TransferTransaction → List Bytes
  transfer_chunks t =
      write_uint8 type_transfer
      ∷ write_uint8 (length (from_ecdsa t.from) % 2 ^ 8)
      ∷ write_uint64 t.nonce
      ∷ write_uint64 t.amount
      ∷ from_ecdsa t.from
      ∷ address_bytes t.to
      ∷ []

  -- `encode` of a transferTransaction.
  unfoldable pub encode_transfer : TransferTransaction → Writer
  encode_transfer t = guarded (check_transfer t) (transfer_chunks t)

  unfoldable pub decode_transfer : Parser TransferTransaction
  decode_transfer = do
    lenkey ← read_uint8 IntType.int
    nonce ← read_uint64 IntType.uint64
    amount ← read_uint64 IntType.uint64
    frombuf ← read_bytes [] lenkey
    tobuf ← read_bytes [] address_length
    from ← lift (to_ecdsa frombuf)
    pure (record { nonce = nonce; amount = amount; from = from; to = bytes_to_address tobuf })

  unfoldable pub check_invoke : InvokeTransaction → Option Error
  check_invoke t =
      let from = from_ecdsa t.from in
      if ltb 255 (length from)
      then some (private_key_too_long (length from))
      else if ltb 65535 (length t.payload)
      then some (arguments_too_large (length t.payload))
      else none

  unfoldable pub invoke_chunks : InvokeTransaction → List Bytes
  invoke_chunks t =
      write_uint8 type_invoke
      ∷ write_uint8 (length (from_ecdsa t.from) % 2 ^ 8)
      ∷ write_uint16 (length t.payload % 2 ^ 16)
      ∷ write_uint64 t.nonce
      ∷ from_ecdsa t.from
      ∷ address_bytes t.appid
      ∷ t.payload
      ∷ []

  -- `encode` of an invokeTransaction.
  unfoldable pub encode_invoke : InvokeTransaction → Writer
  encode_invoke t = guarded (check_invoke t) (invoke_chunks t)

  unfoldable pub decode_invoke : Parser InvokeTransaction
  decode_invoke = do
    lenfrom ← read_uint8 IntType.int
    lenpayload ← read_uint16 IntType.int
    nonce ← read_uint64 IntType.uint64
    frombuf ← read_bytes [] lenfrom
    appidbuf ← read_bytes [] address_length
    payload ← read_bytes [] lenpayload
    from ← lift (to_ecdsa frombuf)
    pure (record {
      nonce = nonce;
      from = from;
      appid = bytes_to_address appidbuf;
      payload = payload;
    })

  -- `switch txtype`
  unfoldable pub decode_type : ℕ → Parser Decoded
  decode_type txtype =
      if txtype == type_transfer
      then decode_transfer >>= (λ t. pure (transfer t))
      else if txtype == type_invoke
      then decode_invoke >>= (λ t. pure (invoke t))
      else fail (unknown_transaction_type txtype)

  unfoldable pub decode_transaction : Parser Decoded
  decode_transaction = do txtype ← read_uint8 IntType.uint8; decode_type txtype
