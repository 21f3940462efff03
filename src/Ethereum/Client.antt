-- ===== src/Ethereum/Client.antt =====
-- blockchains/nethereum/client.go: how a client prepares a transaction when it is decoded, and what it does
-- when the transaction is due; and `parsePrepare` of blockchains/nethereum/interface.go.
pub mod Trigger
use diablo.Prelude.{
  ℕ, Bool, true, false, ◌||◌, Option, none, some, List, [], ◌∷◌, Bytes, bytes_eq, ◌==◌,
  if◌then◌else◌,
}
use diablo.Wire.Errors.{Error, Result, ok, err, and_then, foreign, unknown_prepare_method}
use diablo.Ethereum.{Library}
use diablo.Ethereum.Parameters.{Node, ParameterProvider, direct, make_static}
use diablo.Ethereum.Transaction.{decode_transaction}
use diablo.Ethereum.Signing.{Shared, LazyTransaction, lazy, virtual_of, get_lazy}

-- The transactionPreparers.
pub data Preparer : Type 0 where
  nothing signature : Preparer

-- "nothing", "params", "signature" and "already known"
abbrev nothing_text : Bytes
nothing_text = b'n' ∷ b'o' ∷ b't' ∷ b'h' ∷ b'i' ∷ b'n' ∷ b'g' ∷ []

abbrev params_text : Bytes
params_text = b'p' ∷ b'a' ∷ b'r' ∷ b'a' ∷ b'm' ∷ b's' ∷ []

abbrev signature_text : Bytes
signature_text = b's' ∷ b'i' ∷ b'g' ∷ b'n' ∷ b'a' ∷ b't' ∷ b'u' ∷ b'r' ∷ b'e' ∷ []

abbrev pub already_known : Bytes
already_known =
    b'a' ∷ b'l' ∷ b'r' ∷ b'e' ∷ b'a' ∷ b'd' ∷ b'y' ∷ b' ' ∷ b'k' ∷ b'n' ∷ b'o' ∷ b'w' ∷ b'n' ∷ []

-- `parsePrepare`
unfoldable pub parse_prepare : Bytes → Node → Result (ParameterProvider × Preparer)
parse_prepare value node =
    if bytes_eq value nothing_text
    then ok (direct, nothing)
    else if bytes_eq value params_text
    then and_then (make_static node) (λ p. ok (p, nothing))
    else if bytes_eq value signature_text
    then and_then (make_static node) (λ p. ok (p, signature))
    else err (unknown_prepare_method value)

-- `strings.HasPrefix` and `strings.Contains`
unfoldable pub has_prefix : Bytes → Bytes → Bool
has_prefix s [] = true
has_prefix [] (c ∷ cs) = false
has_prefix (a ∷ s) (c ∷ cs) = let rest = has_prefix s cs in if a == c then rest else false

unfoldable pub contains : Bytes → Bytes → Bool
unfolding has_prefix
contains [] sub = has_prefix [] sub
contains (a ∷ s) sub = let rest = contains s sub in if has_prefix (a ∷ s) sub then true else rest

-- What `TriggerInteraction` reports of the interaction before it is confirmed.
pub data Report : Type 0 where
  submitted aborted : Report

-- How it goes on: it returns an error, or waits for the confirmation of what it sent.
pub data Outcome (SignedTx : Type 0) : Type 0 where
  failed : Error → Outcome SignedTx
  confirming : SignedTx → Outcome SignedTx

pub record Triggered (SignedTx : Type 0) : Type 0 where
  pub reports : List Report
  pub sent : Option SignedTx
  pub outcome : Outcome SignedTx

module _ (eth : Library) where
  open eth use {SignedTx}

  -- `prepare` of either preparer.
  unfoldable pub prepare_transaction :
      Node → Preparer → LazyTransaction eth → Shared → Result (LazyTransaction eth) × Shared
  prepare_transaction node nothing tx w = (ok tx, w)
  prepare_transaction node signature tx w =
      let (r, tx', w') = get_lazy eth node tx w in
      elim r [ err e ↦ (err e, w') | ok stx ↦ (ok tx', w') ]

  -- `DecodePayload`
  unfoldable pub decode_payload :
      Node → Preparer → Bytes → Shared → Result (LazyTransaction eth) × Shared
  unfolding prepare_transaction
  decode_payload node preparer payload w = elim (decode_transaction eth payload) [
    | err e ↦ (err e, w)
    | ok r ↦ prepare_transaction node preparer (lazy eth (virtual_of eth r.0)) w
  ]

  -- What follows `SendTransaction`, with the message of its error. The arguments of
  -- `strings.Contains` stand as in the code: the message is looked for in "already known".
  unfoldable pub after_send : SignedTx → Option Bytes → Triggered SignedTx
  unfolding contains
  after_send stx none = record {
    reports = submitted ∷ [];
    sent = some stx;
    outcome = confirming stx;
  }
  after_send stx (some text) =
      if contains already_known text
      then record { reports = submitted ∷ []; sent = some stx; outcome = confirming stx }
      else record {
        reports = submitted ∷ aborted ∷ [];
        sent = some stx;
        outcome = failed (foreign text);
      }

  unfoldable pub after_get : (SignedTx → Option Bytes) → Result SignedTx → Triggered SignedTx
  unfolding after_send
  after_get send (err e) = record { reports = []; sent = none; outcome = failed e }
  after_get send (ok stx) = after_send stx (send stx)

  -- `TriggerInteraction` up to the call of the confirmer.
  unfoldable pub trigger_interaction :
      Node
      → (SignedTx → Option Bytes)
      → LazyTransaction eth
      → Shared
      → Triggered SignedTx × LazyTransaction eth × Shared
  unfolding after_get
  trigger_interaction node send tx w =
      let (r, tx', w') = get_lazy eth node tx w in (after_get send r, tx', w')
