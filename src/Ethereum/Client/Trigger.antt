-- ===== src/Ethereum/Client/Trigger.antt =====
-- What a client of Ethereum submits for a payload that the builder encoded.
use diablo.Prelude.{ℕ, ◌+◌, ◌%◌, ◌^◌, ◌≡◌, refl, Option, some, Bytes}
use diablo.Wire.Errors.{ok}
use diablo.Wire.Sink.{frame}
use diablo.Wire.Parses.{Parses}
use diablo.Ethereum.{Library, TxData}
use diablo.Ethereum.Nonce.{next_nonce}
use diablo.Ethereum.Nonce.Stable.{IsSynced, next_nonce-IsSynced}
use diablo.Ethereum.Parameters.{Node, Parameters, static}
use diablo.Ethereum.Transaction.{Decoded, transfer, invoke, transfer_chunks, invoke_chunks}
use diablo.Ethereum.Signing.{Shared, signed, transfer_data, invoke_data, LazyTransaction}
use diablo.Ethereum.Client.{after_send, trigger_interaction}

module _ (eth : Library) where
  open eth use {PrivateKey, Address, SignedTx, sign_tx, address_string, pubkey_to_address}

  -- The payload of a transaction, its payer, its nonce, and what is signed for it.
  abbrev pub payload_of : Decoded eth → Bytes
  payload_of (transfer t) = frame (transfer_chunks eth t)
  payload_of (invoke t) = frame (invoke_chunks eth t)

  abbrev pub from_of : Decoded eth → PrivateKey
  from_of (transfer t) = t.from
  from_of (invoke t) = t.from

  abbrev pub offset_of : Decoded eth → ℕ
  offset_of (transfer t) = t.nonce
  offset_of (invoke t) = t.nonce

  abbrev pub data_of : Decoded eth → ℕ → Parameters → TxData Address
  data_of (transfer t) = transfer_data eth t
  data_of (invoke t) = invoke_data eth t

  abbrev pub key_of : Decoded eth → Bytes
  key_of d = address_string (pubkey_to_address (from_of d))

  module _ (d : Decoded eth) (b : ℕ) (p : Parameters) (stx : SignedTx)
      (signs : sign_tx (data_of d ((b + offset_of d) % 2 ^ 64) p) p.chain_id (from_of d)
        ≡ ok stx) where
    -- The base of the payer is known, and so are the parameters.
    abbrev IsReady : Shared → Type 0
    IsReady w = IsSynced (key_of d) b w.manager × (w.provider ≡ static p)

    next_shared : Node → Shared → Shared
    next_shared node w = record {
      manager = (next_nonce (key_of d) (offset_of d) node.pending w.manager).1;
      provider = static p;
    }

    next_shared-IsReady : (node : Node) (w : Shared) → IsReady w → IsReady (next_shared node w)
    unfolding next_shared
    next_shared-IsReady node w h = (
      next_nonce-IsSynced (key_of d) b
          (record { key = key_of d; offset = offset_of d; pending = node.pending }) w.manager h.0,
      refl,
    )

    -- The transaction once it was signed.
    signed_once : LazyTransaction eth
    signed_once = record { inner = signed stx; result = some (ok stx) }

    -- What `DecodePayload` keeps, with either preparer, is submitted signed with this nonce.
    abbrev Submits : LazyTransaction eth × Shared → Type 0
    Submits (tx, w) =
        (node : Node) (send : SignedTx → Option Bytes)
        → (trigger_interaction eth node send tx w).0 ≡ after_send eth stx (send stx)
