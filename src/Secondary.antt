-- ===== src/Secondary.antt =====
-- core/nsecondary.go: a secondary's preparation, in which it creates its clients and decodes its
-- interactions.
pub mod Prepared
pub mod Ends
pub mod Lifecycle
pub mod Reports
use diablo.Prelude.{
  ℕ, zero, suc, Option, none, some, List, [], ◌∷◌, ◌++◌, Bytes, ℤ, int_key, Map, lookup, insert,
  length,
}
use diablo.Float.{Float64}
use diablo.Wire.Errors.{Error, Result, ok, err, and_then, invalid_client_index, out_of_fuel}
use diablo.Wire.Source.{Parser, ◌>>=◌, pure, fail, lift}
use diablo.Message.Prepare.{
  MsgPrepare, MsgPrepareClient, MsgPrepareInteraction, done, client, interaction, decode_prepare,
}

-- The interface to a blockchain, `BlockchainInterface` and `BlockchainClient` of core/blockchain.go:
-- the clients that it makes for a view, and the payloads that they decode.
pub record Blockchain : Type 1 where
  pub Client : Type 0
  pub Payload : Type 0
  pub new_client : Map Bytes Bytes → List Bytes → Result Client
  pub decode_payload : Client → Bytes → Result Payload

module _ (chain : Blockchain) where
  open chain use {Client, Payload, new_client, decode_payload}

  pub record RuntimeClient : Type 0 where
    pub id : ℤ
    pub inner : Client

  -- The interaction before anything has happened to it.
  pub record RuntimeInteraction : Type 0 where
    pub client : RuntimeClient
    pub ikind : ℤ
    pub sched_time : Float64
    pub opaque : Payload

  -- An interaction whose goroutine has not delivered its payload.
  pub record Pending : Type 0 where
    pub client : RuntimeClient
    pub message : MsgPrepareInteraction

  pub record Preparation : Type 0 where
    pub clients : Map ℤ RuntimeClient
    pub pending : List Pending

  unfoldable pub prepare_client :
      Map Bytes Bytes → MsgPrepareClient → Preparation → Result Preparation
  prepare_client params m p = and_then (new_client params m.view) (λ inner.
      ok (record p { clients = insert m.index (record { id = m.index; inner = inner }) p.clients }))

  unfoldable pub prepare_interaction : MsgPrepareInteraction → Preparation → Result Preparation
  prepare_interaction m p = elim (lookup m.index p.clients) [
    | none ↦ err (invalid_client_index m.index)
    | some c ↦ ok (record p { pending = p.pending ++ record { client = c; message = m } ∷ [] })
  ]

  -- The loop of `prepare` over the messages, up to the end marker.
  unfoldable pub prepare_loop : ℕ → Map Bytes Bytes → Preparation → Parser Preparation
  prepare_loop zero params p = fail out_of_fuel
  prepare_loop (suc fuel) params p = do
    msg ← decode_prepare
    elim msg [
      | done ↦ pure p
      | client m ↦ do p' ← lift (prepare_client params m p); prepare_loop fuel params p'
      | interaction m ↦ do p' ← lift (prepare_interaction m p); prepare_loop fuel params p'
    ]

  -- `decodeInteraction`, which runs in a goroutine of its own.
  unfoldable pub decode_one : Pending → Result RuntimeInteraction
  decode_one p = and_then (decode_payload p.client.inner p.message.payload) (λ opaque. ok (record {
    client = p.client;
    ikind = p.message.ikind;
    sched_time = p.message.time;
    opaque = opaque;
  }))

  -- The loop that takes the decoded interactions off the channel, in the order in which they arrive.
  unfoldable pub gather : List Pending → Result (List RuntimeInteraction)
  unfolding decode_one
  gather [] = ok []
  gather (p ∷ ps) =
      and_then (decode_one p) (λ decoded. and_then (gather ps) (λ rest. ok (decoded ∷ rest)))

  -- `prepare`: the order in which the goroutines finish is an argument.
  unfoldable pub prepare :
      (List Pending → List Pending)
      → Map Bytes Bytes
      → Parser (Map ℤ RuntimeClient × List RuntimeInteraction)
  prepare arrivals params input =
      (do
        p ← prepare_loop (suc (length input)) params (record { clients = []; pending = [] })
        interactions ← lift (gather (arrivals p.pending))
        pure (p.clients, interactions))
        input
