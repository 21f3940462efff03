-- ===== src/Ethereum/Transaction/RoundTrip.antt =====
-- What a client of Ethereum decodes of the transactions that the builder encodes.
use diablo.Prelude.{ℕ, ◌%◌, ◌^◌, ◌≤◌, ◌<◌, ◌≡◌, sym, ◌↔◌, none, length, arith}
use diablo.Wire.Sink.{Writer, frame}
use diablo.Wire.Parses.{Parses, Parses-bind, Parses-bind_pure, Parses-pure, Parses-lift}
use diablo.Message.Strings.{Decides, guarded-Decides}
use diablo.Util.{IntType, max_of, Parses-uint8, Parses-uint16, Parses-uint64, Parses-bytes}
use diablo.Ethereum.{Library, IsDocumented}
use diablo.Ethereum.Transaction.{
  TransferTransaction, InvokeTransaction, Decoded, transfer, invoke, type_transfer, type_invoke,
  check_transfer, transfer_chunks, encode_transfer, decode_transfer, check_invoke, invoke_chunks,
  encode_invoke, decode_invoke, decode_type, decode_transaction,
}

module _ (eth : Library) where
  -- `encode` of either transaction.
  unfoldable pub encode_transaction : Decoded eth → Writer
  encode_transaction (transfer t) = encode_transfer eth t
  encode_transaction (invoke t) = encode_invoke eth t

  -- The numbers are words of 64 bits.
  abbrev pub IsWord : Decoded eth → Type 0
  IsWord (transfer t) = (t.nonce < 2 ^ 64) × (t.amount < 2 ^ 64)
  IsWord (invoke t) = t.nonce < 2 ^ 64

  abbrev pub Fits : Decoded eth → Type 0
  Fits (transfer t) = length (eth.from_ecdsa t.from) ≤ 255
  Fits (invoke t) = (length (eth.from_ecdsa t.from) ≤ 255) × (length t.payload ≤ 65535)

  pub check_transfer_iff :
      (t : TransferTransaction eth) → (check_transfer eth t ≡ none) ↔ Fits (transfer t)
  unfolding check_transfer
  check_transfer_iff t = ground arith

  pub check_invoke_iff : (t : InvokeTransaction eth) → (check_invoke eth t ≡ none) ↔ Fits (invoke t)
  unfolding check_invoke
  check_invoke_iff t = ground arith

  small_byte : {n : ℕ} → n ≤ 255 → n % 2 ^ 8 ≡ n
  small_byte h = omega arith

  small_short : {n : ℕ} → n ≤ 65535 → n % 2 ^ 16 ≡ n
  small_short h = omega arith

  module _ (doc : IsDocumented eth) where
    pub reads_transfer :
        (t : TransferTransaction eth)
        → IsWord (transfer t)
        → Fits (transfer t)
        → Parses (decode_transaction eth) (frame (transfer_chunks eth t)) (transfer t)
    unfolding transfer_chunks decode_transaction decode_type decode_transfer max_of
    reads_transfer t w h =
        Parses-bind _ (Parses-uint8 IntType.uint8 type_transfer (omega arith) (omega arith)) (
          Parses-bind_pure (λ r. transfer r)
            (Parses-bind _ (Parses-uint8 IntType.int _ (omega arith) (omega arith)) (
              Parses-bind _ (Parses-uint64 IntType.uint64 t.nonce w.0 (omega arith)) (
                Parses-bind _ (Parses-uint64 IntType.uint64 t.amount w.1 (omega arith)) (
                  Parses-bind _ (Parses-bytes _ (eth.from_ecdsa t.from) (sym (small_byte h))) (
                    Parses-bind _
                      (Parses-bytes _ (eth.address_bytes t.to) (doc.address_length t.to))
                      (Parses-bind _ (Parses-lift _ t.from (doc.key_bytes t.from))
                        (rw (doc.address_bytes t.to) (Parses-pure t)))))))))

    pub reads_invoke :
        (t : InvokeTransaction eth)
        → IsWord (invoke t)
        → Fits (invoke t)
        → Parses (decode_transaction eth) (frame (invoke_chunks eth t)) (invoke t)
    unfolding invoke_chunks decode_transaction decode_type decode_invoke max_of
    reads_invoke t w h =
        Parses-bind _ (Parses-uint8 IntType.uint8 type_invoke (omega arith) (omega arith)) (
          Parses-bind_pure (λ r. invoke r)
            (Parses-bind _ (Parses-uint8 IntType.int _ (omega arith) (omega arith)) (
              Parses-bind _ (Parses-uint16 IntType.int _ (omega arith) (omega arith)) (
                Parses-bind _ (Parses-uint64 IntType.uint64 t.nonce w (omega arith)) (
                  Parses-bind _ (Parses-bytes _ (eth.from_ecdsa t.from) (sym (small_byte h.0))) (
                    Parses-bind _
                      (Parses-bytes _ (eth.address_bytes t.appid) (doc.address_length t.appid))
                      (Parses-bind _ (Parses-bytes _ t.payload (sym (small_short h.1))) (
                        Parses-bind _ (Parses-lift _ t.from (doc.key_bytes t.from))
                          (rw (doc.address_bytes t.appid) (Parses-pure t))))))))))

    -- A transfer or an invocation, its numbers words of 64 bits, is transmitted if the key has at most
    -- 255 bytes and the payload of an invocation at most 65535, and refused before a byte is written
    -- otherwise. What the client decodes is the same transaction.
    pub encode_transaction-decode_transaction :
        (t : Decoded eth)
        → IsWord t
        → Decides (Fits t) (encode_transaction t) (decode_transaction eth) t
    unfolding encode_transaction encode_transfer encode_invoke
    encode_transaction-decode_transaction (transfer t) w =
        guarded-Decides (check_transfer eth t) (transfer_chunks eth t) (check_transfer_iff t)
          (reads_transfer t w)
    encode_transaction-decode_transaction (invoke t) w =
        guarded-Decides (check_invoke eth t) (invoke_chunks eth t) (check_invoke_iff t)
          (reads_invoke t w)
