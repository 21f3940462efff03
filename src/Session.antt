-- ===== src/Session.antt =====
-- The two ends of core/net.go together: what a secondary prepares from the calls that the primary
-- made on it.
pub mod Results
pub mod Handshake
use diablo.Prelude.{
  suc, [], ◌∷◌, Option, some, refl, ◌+◌, ◌<◌, ◌≤◌, ◌≡◌, ◌∙◌, none, List, ◌++◌, Bytes, Map, length,
  length-append, All, arith, ap, sym,
}
use diablo.Wire.Errors.{Error, ok, and_then}
use diablo.Wire.Sink.{Sink, sent, sent-sent}
use diablo.Message.Prepare.{MsgPrepare, done, encode_prepare, type_done}
use diablo.Message.Prepare.Stream.{IsWhole, message_bytes, prepare_stream, prepare_stream-long}
use diablo.Message.Strings.{guarded-writes}
use diablo.Wire.Little.{byte}
use diablo.Primary.{RemoteClient, RemoteSecondary}
use diablo.Primary.Script.{
  Command, Plans, perform_all, perform_all-Plans, prepare_stream-bytes_of, remote, bytes_of,
}
use diablo.Secondary.{Blockchain, Preparation, prepare_loop}
use diablo.Secondary.Prepared.{handle_all, prepare_loop-handle_all}

-- The calls, and the end marker that `syncReady` writes behind their messages.
unfoldable pub perform_ready : List Command → RemoteSecondary → Option Error × RemoteSecondary
perform_ready l s =
    let (e, s') = perform_all l s in
    elim e [
      | some e' ↦ (some e', s')
      | none ↦ let (e', out) = encode_prepare done s'.out in (e', record s' { out = out })
    ]

writes_end :
    (s : Sink)
    → length (message_bytes done) ≤ s.room
    → encode_prepare done s ≡ (none, sent (message_bytes done) s)
unfolding encode_prepare message_bytes
writes_end s fits = guarded-writes none (byte type_done ∷ []) s refl fits

perform_ready-Plans :
    (addr : Bytes) (tags : List Bytes) {l : List Command} {ms : List MsgPrepare}
    {cs cs' : List RemoteClient}
    → Plans l cs ms cs'
    → (out : Sink) → All IsWhole ms
    → length (prepare_stream ms) ≤ out.room
    → perform_ready l (remote addr tags cs out)
      ≡ (none, remote addr tags cs' (sent (prepare_stream ms) out))
unfolding perform_ready
perform_ready-Plans addr tags {ms = ms} plans out whole fits =
    let n = length-append (bytes_of ms) (message_bytes done) in
    let s = prepare_stream-bytes_of ms in
    let k = ap length s in
    let e = perform_all-Plans addr tags plans out whole (omega arith) in
    let w = writes_end (sent (bytes_of ms) out) (omega arith) in
    rw (s, ← sent-sent (bytes_of ms) (message_bytes done) out, e, perform_ready) (rw e (rw w refl))

-- Calls that only use clients created before, and whose messages arrive as they are sent (numbers of
-- interactions below 256), all succeed when there is room for their bytes; and the loop of `prepare`
-- reads from what they and the end marker wrote exactly their messages, handles them in the order of
-- the calls up to the first that fails, and leaves what follows the marker.
pub perform_ready-handle_all :
    (chain : Blockchain) (params : Map Bytes Bytes) (addr : Bytes) (tags : List Bytes)
    {l : List Command} {ms : List MsgPrepare} {cs cs' : List RemoteClient}
    → Plans l cs ms cs'
    → (out : Sink) (p : Preparation chain) (rest : Bytes) → All IsWhole ms
    → length (prepare_stream ms) ≤ out.room
    → (perform_ready l (remote addr tags cs out)
        ≡ (none, remote addr tags cs' (sent (prepare_stream ms) out)))
      × (prepare_loop chain
            (suc (length (prepare_stream ms ++ rest)))
            params
            p
            (prepare_stream ms ++ rest)
          ≡ and_then (handle_all chain params ms p) (λ p'. ok (p', rest)))
perform_ready-handle_all chain params addr tags {ms = ms} plans out p rest whole fits = (
  perform_ready-Plans addr tags plans out whole fits,
  prepare_loop-handle_all chain params _ ms p rest
      (omega (arith, prepare_stream-long ms, length-append (prepare_stream ms) rest)) whole,
)
