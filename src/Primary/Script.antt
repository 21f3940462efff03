-- ===== src/Primary/Script.antt =====
-- The calls that the benchmark's parser and generator make on a secondary, one after the other, and
-- the messages that they put on the wire.
use diablo.Prelude.{
  ℕ, ◌≤◌, ◌≡◌, refl, sym, Option, none, some, List, [], ◌∷◌, ◌++◌, Bytes, length, length-append,
  pos, get_elem?, set, All, arith,
}
use mathlib.Core.List.{append_assoc}
use diablo.Float.{Float64}
use diablo.Wire.Errors.{Error}
use diablo.Wire.Sink.{Sink, sent, sent-sent, sent-nil}
use diablo.Message.Prepare.{MsgPrepare, done, client, interaction}
use diablo.Message.Prepare.Stream.{IsWhole, message_bytes, prepare_stream, encode_prepare-writes}
use diablo.Primary.{
  RemoteClient, RemoteSecondary, new_remote_client, schedule, create_client, send_interaction,
}

-- `createClient`, and `sendInteraction` of the client with the given number.
pub data Command : Type 0 where
  create : Bytes → List Bytes → Command
  send : ℕ → Bytes → Float64 → Bytes → Command

unfoldable pub perform : Command → RemoteSecondary → Option Error × RemoteSecondary
perform (create kind view) s = create_client kind view s
perform (send id kind time encoded) s = send_interaction id kind time encoded s

-- The caller gives up at the first error.
unfoldable pub perform_all : List Command → RemoteSecondary → Option Error × RemoteSecondary
perform_all [] s = (none, s)
perform_all (c ∷ cs) s =
    let (e, s') = perform c s in elim e [ some e' ↦ (some e', s') | none ↦ perform_all cs s' ]

-- A call that does not fail on the connection: its message, and the clients before and after it. An
-- interaction is sent through a client that was created.
pub data Plan : Command → List RemoteClient → MsgPrepare → List RemoteClient → Type 0 where
  creates :
      {kind : Bytes} {view : List Bytes} {cs : List RemoteClient}
      → Plan
          (create kind view)
          cs
          (client (record { view = view; index = pos (length cs) }))
          (cs ++ new_remote_client (length cs) kind ∷ [])
  sends :
      {id : ℕ} {kind : Bytes} {time : Float64} {encoded : Bytes} {cs : List RemoteClient}
      (c : RemoteClient)
      → get_elem? cs id ≡ some c
      → Plan
          (send id kind time encoded)
          cs
          (interaction (schedule kind time encoded c).1)
          (set cs id (schedule kind time encoded c).0)

-- The same of calls in a row.
pub data Plans
    : List Command → List RemoteClient → List MsgPrepare → List RemoteClient → Type 0 where
  nothing : {cs : List RemoteClient} → Plans [] cs [] cs
  call :
      {c : Command} {l : List Command} {m : MsgPrepare} {ms : List MsgPrepare}
      {cs cs' cs'' : List RemoteClient}
      → Plan c cs m cs'
      → Plans l cs' ms cs''
      → Plans (c ∷ l) cs (m ∷ ms) cs''

unfoldable pub bytes_of : List MsgPrepare → Bytes
bytes_of [] = []
bytes_of (m ∷ ms) = message_bytes m ++ bytes_of ms

pub prepare_stream-bytes_of :
    (ms : List MsgPrepare) → prepare_stream ms ≡ bytes_of ms ++ message_bytes done
unfolding bytes_of
prepare_stream-bytes_of [] = refl
prepare_stream-bytes_of (m ∷ ms) =
    rw (prepare_stream-bytes_of ms)
      (sym (append_assoc (message_bytes m) (bytes_of ms) (message_bytes done)))

abbrev pub remote : Bytes → List Bytes → List RemoteClient → Sink → RemoteSecondary
remote addr tags clients out = record { addr = addr; tags = tags; clients = clients; out = out }

module _ (addr : Bytes) (tags : List Bytes) where
  pub perform-Plan :
      {c : Command} {m : MsgPrepare} {cs cs' : List RemoteClient}
      → Plan c cs m cs'
      → (out : Sink) → IsWhole m
      → length (message_bytes m) ≤ out.room
      → perform c (remote addr tags cs out)
        ≡ (none, remote addr tags cs' (sent (message_bytes m) out))
  unfolding perform create_client send_interaction
  perform-Plan (creates {kind = kind} {view = view} {cs = cs}) out h fits =
      let m = client (record { view = view; index = pos (length cs) }) in
      let e = encode_prepare-writes m out h fits in rw (e, perform, create_client) (rw e refl)
  perform-Plan (sends {id = id} {kind = kind} {time = time} {encoded = encoded} {cs = cs} c there)
        out h fits =
      let e = encode_prepare-writes (interaction (schedule kind time encoded c).1) out h fits in
      rw (there, perform, send_interaction) (rw e refl)

  -- Such calls write their messages one after the other.
  pub perform_all-Plans :
      {l : List Command} {ms : List MsgPrepare} {cs cs' : List RemoteClient}
      → Plans l cs ms cs'
      → (out : Sink) → All IsWhole ms
      → length (bytes_of ms) ≤ out.room
      → perform_all l (remote addr tags cs out)
        ≡ (none, remote addr tags cs' (sent (bytes_of ms) out))
  unfolding perform_all bytes_of
  perform_all-Plans nothing out h fits = rw (sent-nil out) refl
  perform_all-Plans (call {m = m} {ms = ms} p ps) out h fits =
      let n = length-append (message_bytes m) (bytes_of ms) in
      let e = perform-Plan p out h.0 (omega arith) in
      rw (← sent-sent (message_bytes m) (bytes_of ms) out, e, perform_all)
        (rw e (perform_all-Plans ps (sent (message_bytes m) out) h.1 (omega arith)))
