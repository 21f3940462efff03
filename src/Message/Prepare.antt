-- ===== src/Message/Prepare.antt =====
-- core/encoding.go: `msgPrepareDone`, `msgPrepareClient` and `msgPrepareInteraction`, which tell a
-- secondary which clients to create and which interactions to trigger.
pub mod RoundTrip
pub mod Stream
use diablo.Prelude.{
  ℕ, ◌%◌, ◌^◌, ◌++◌, Option, none, some, List, [], ◌∷◌, Bytes, ℤ, pos, wrap, leb_ℤ, length, ltb,
  ◌==◌, if◌then◌else◌,
}
use diablo.Float.{Float64}
use diablo.Wire.Errors.{
  Error, too_many_addresses, address_too_long, client_index_too_large, interaction_kind_too_large,
  payload_too_large, unknown_prepare_type,
}
use diablo.Wire.Sink.{Writer, guarded}
use diablo.Wire.Source.{Parser, ◌>>=◌, pure, fail, read_byte, read_full}
use diablo.Wire.Little.{byte, little, read_little}
use diablo.Message.Strings.{string_chunks, read_strings, first_long}

pub record MsgPrepareClient : Type 0 where
  pub view : List Bytes
  pub index : ℤ

pub record MsgPrepareInteraction : Type 0 where
  pub index : ℤ
  pub ikind : ℤ
  pub time : Float64
  pub payload : Bytes

pub data MsgPrepare : Type 0 where
  done : MsgPrepare
  client : MsgPrepareClient → MsgPrepare
  interaction : MsgPrepareInteraction → MsgPrepare

-- MSG_PREPARE_TYPE_DONE, MSG_PREPARE_TYPE_CLIENT and MSG_PREPARE_TYPE_INTERACTION
abbrev pub type_done : ℕ
type_done = 0

abbrev pub type_client : ℕ
type_client = 1

abbrev pub type_interaction : ℕ
type_interaction = 2

unfoldable pub check_client : MsgPrepareClient → Option Error
unfolding first_long
check_client m =
    if ltb 65535 (length m.view)
    then some (too_many_addresses (length m.view))
    else elim (first_long address_too_long m.view) [
      | some e ↦ some e
      | none ↦ if leb_ℤ (2 ^ 32) m.index then some (client_index_too_large m.index) else none
    ]

unfoldable pub client_chunks : MsgPrepareClient → List Bytes
client_chunks m =
    byte type_client
    ∷ little 2 (length m.view % 2 ^ 16)
    ∷ (string_chunks m.view ++ little 4 (wrap (2 ^ 32) m.index) ∷ [])

unfoldable pub decode_client : Parser MsgPrepare
decode_client = do
  nview ← read_little 2
  view ← read_strings nview
  index ← read_little 4
  pure (client (record { view = view; index = pos index }))

unfoldable pub check_interaction : MsgPrepareInteraction → Option Error
check_interaction m =
    if leb_ℤ (2 ^ 32) m.index
    then some (client_index_too_large m.index)
    else if leb_ℤ 256 m.ikind
    then some (interaction_kind_too_large m.ikind)
    else if ltb 65535 (length m.payload)
    then some (payload_too_large (length m.payload))
    else none

unfoldable pub interaction_chunks : MsgPrepareInteraction → List Bytes
interaction_chunks m =
    byte type_interaction
    ∷ little 4 (wrap (2 ^ 32) m.index)
    ∷ byte (wrap 256 m.ikind)
    ∷ little 8 m.time
    ∷ little 2 (length m.payload % 2 ^ 16)
    ∷ m.payload
    ∷ []

-- `this.index = int(uint8(index))` keeps the low byte of the index that was read.
unfoldable pub decode_interaction : Parser MsgPrepare
decode_interaction = do
  index ← read_little 4
  ikind ← read_byte
  time ← read_little 8
  lpayload ← read_little 2
  payload ← read_full lpayload
  pure (
      interaction
        (record { index = pos (index % 256); ikind = pos ikind; time = time; payload = payload }))

-- `encode` of the interface `msgPrepare`.
unfoldable pub encode_prepare : MsgPrepare → Writer
encode_prepare done = guarded none (byte type_done ∷ [])
encode_prepare (client m) = guarded (check_client m) (client_chunks m)
encode_prepare (interaction m) = guarded (check_interaction m) (interaction_chunks m)

-- `switch (mtype[0])`
unfoldable pub decode_prepare_type : ℕ → Parser MsgPrepare
unfolding decode_client decode_interaction
decode_prepare_type mtype =
    if mtype == type_done
    then pure done
    else if mtype == type_client
    then decode_client
    else if mtype == type_interaction
    then decode_interaction
    else fail (unknown_prepare_type mtype)

unfoldable pub decode_prepare : Parser MsgPrepare
decode_prepare = do mtype ← read_byte; decode_prepare_type mtype
