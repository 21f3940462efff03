-- ===== src/Primary.antt =====
-- core/nprimary.go and the connection of core/net.go: what the primary keeps of a secondary and of
-- its clients, and the messages that it sends to create clients and to schedule interactions.
pub mod Kinds
pub mod Duration
pub mod Latest
pub mod Script
pub mod Collect
use diablo.Prelude.{
  ℕ, ◌+◌, Option, none, some, List, [], ◌∷◌, ◌++◌, Bytes, bytes_key, ℤ, pos, Map, lookup, insert,
  length, get_elem?, set, if◌then◌else◌,
}
use diablo.Float.{Float64, lt_float}
use diablo.Wire.Errors.{Error, Result, ok, err, and_then, index_out_of_range}
use diablo.Wire.Sink.{Sink}
use diablo.Message.Prepare.{
  MsgPrepare, MsgPrepareClient, MsgPrepareInteraction, client, interaction, encode_prepare,
}
use diablo.Message.Params.{MsgPrimaryParameters, encode_primary, decode_secondary}

-- `ikinds` gives each kind of interaction its position in `kinds`.
pub record RemoteClient : Type 0 where
  pub index : ℕ
  pub kind : Bytes
  pub max_time : Float64
  pub kinds : List Bytes
  pub ikinds : Map Bytes ℕ

unfoldable pub new_remote_client : ℕ → Bytes → RemoteClient
new_remote_client index kind = record {
  index = index;
  kind = kind;
  max_time = 0;
  kinds = [];
  ikinds = [];
}

-- `out` is the connection's writer; its buffer is not modelled, so a flush does nothing.
pub record RemoteSecondary : Type 0 where
  pub addr : Bytes
  pub tags : List Bytes
  pub clients : List RemoteClient
  pub out : Sink

-- `newRemoteSecondary`: the parameters go out, the secondary's tags come in, and its address is the
-- last of them.
unfoldable pub new_remote_secondary :
    Bytes → MsgPrimaryParameters → Sink → Bytes → Result (RemoteSecondary × Bytes)
new_remote_secondary addr params out input =
    let (e, out') = encode_primary params out in
    elim e [
      | some e' ↦ err e'
      | none ↦ and_then (decode_secondary input) (λ r.
          ok (record { addr = addr; tags = r.0.tags ++ addr ∷ []; clients = []; out = out' }, r.1))
    ]

-- `createClient`: the new client is kept only if its message went out.
unfoldable pub create_client : Bytes → List Bytes → RemoteSecondary → Option Error × RemoteSecondary
create_client kind view s =
    let id = length s.clients in
    let (e, out') = encode_prepare (client (record { view = view; index = pos id })) s.out in
    elim e [
      | some e' ↦ (some e', record s { out = out' })
      | none ↦
          (none, record s { clients = s.clients ++ new_remote_client id kind ∷ []; out = out' })
    ]

-- The first lines of `sendInteraction`: `if time > this.maxTime`.
unfoldable pub extend_time : Float64 → RemoteClient → RemoteClient
extend_time time c = if lt_float c.max_time time then record c { max_time = time } else c

-- The number of an interaction kind; a kind that was not seen before gets the next one.
unfoldable pub number_kind : Bytes → RemoteClient → ℕ × RemoteClient
number_kind kind c = elim (lookup kind c.ikinds) [
  | some ikind ↦ (ikind, c)
  | none ↦ (
    length c.kinds,
    record c { kinds = c.kinds ++ kind ∷ []; ikinds = insert kind (length c.kinds) c.ikinds },
  )
]

-- `sendInteraction`: the client after it, and the message that it sends.
unfoldable pub schedule :
    Bytes → Float64 → Bytes → RemoteClient → RemoteClient × MsgPrepareInteraction
schedule kind time encoded c =
    let (ikind, c') = number_kind kind (extend_time time c) in
    (c', record { index = pos c'.index; ikind = pos ikind; time = time; payload = encoded })

-- `sendInteraction` of the client that `createClient` returned as number `id`. The client is changed
-- in place, also if the message does not go out.
unfoldable pub send_interaction :
    ℕ → Bytes → Float64 → Bytes → RemoteSecondary → Option Error × RemoteSecondary
send_interaction id kind time encoded s = elim (get_elem? s.clients id) [
  | none ↦ (some (index_out_of_range (pos id)), s)
  | some c ↦
      let (c', message) = schedule kind time encoded c in
      let (e, out) = encode_prepare (interaction message) s.out in
      (e, record s { clients = set s.clients id c'; out = out })
]

-- `end` of a secondary: the latest time of its clients, at least 0.
unfoldable pub latest : Float64 → List RemoteClient → Float64
latest max_time [] = max_time
latest max_time (c ∷ cs) = latest (if lt_float max_time c.max_time then c.max_time else max_time) cs

unfoldable pub end_of : RemoteSecondary → Float64
unfolding latest
end_of s = latest 0 s.clients

-- The loop of `Run` over the secondaries: the duration of the benchmark.
unfoldable pub duration_of : Float64 → List RemoteSecondary → Float64
duration_of duration [] = duration
duration_of duration (s ∷ ss) =
    duration_of (if lt_float duration (end_of s) then end_of s else duration) ss
