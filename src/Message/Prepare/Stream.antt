-- ===== src/Message/Prepare/Stream.antt =====
-- Prepare messages in a row, as they stand on the wire.
use diablo.Prelude.{
  ◌^◌, ◌≤◌, ◌≡◌, List, [], ◌∷◌, ◌++◌, Bytes, length, length-append, ℤ, Within, Within-Below, All,
  arith, none,
}
use diablo.Float.{IsFloat64}
use diablo.Wire.Sink.{Sink, frame, sent}
use diablo.Wire.Little.{byte}
use diablo.Wire.Parses.{Parses, Parses-bind, Parses-pure, Parses-byte}
use diablo.Message.Strings.{IsShort, guarded-writes}
use diablo.Message.Prepare.{
  MsgPrepare, MsgPrepareClient, MsgPrepareInteraction, done, client, interaction, client_chunks,
  interaction_chunks, encode_prepare, decode_prepare, decode_prepare_type, type_done, check_client,
  check_interaction,
}
use diablo.Message.Prepare.RoundTrip.{
  FitsClient, FitsInteraction, reads_client, reads_interaction, received_client-Within,
  received_interaction-eq_iff, check_client_iff, check_interaction_iff,
}

unfoldable pub message_bytes : MsgPrepare → Bytes
message_bytes done = frame (byte type_done ∷ [])
message_bytes (client m) = frame (client_chunks m)
message_bytes (interaction m) = frame (interaction_chunks m)

-- A message, other than the end marker, that arrives as it was sent: its sizes and numbers fit the
-- format, and the numbers of an interaction fit a byte.
abbrev pub IsWhole : MsgPrepare → Type 0
IsWhole done = ⊥
IsWhole (client m) = (length m.view ≤ 65535) × All IsShort m.view × Within (2 ^ 32) m.index
IsWhole (interaction m) =
    IsFloat64 m.time × (length m.payload ≤ 65535) × Within 256 m.index × Within 256 m.ikind

-- The messages, and the end marker behind them.
abbrev pub prepare_stream : List MsgPrepare → Bytes
prepare_stream [] = message_bytes done
prepare_stream (m ∷ ms) = message_bytes m ++ prepare_stream ms

fits_client : (m : MsgPrepareClient) → IsWhole (client m) → FitsClient m
fits_client m h = (h.0, h.1, Within-Below _ _ h.2)

Within-more : (i : ℤ) → Within 256 i → Within (2 ^ 32) i
Within-more (ℤ.pos n) h = omega arith
Within-more (ℤ.negsuc n) h = h

fits_interaction : (m : MsgPrepareInteraction) → IsWhole (interaction m) → FitsInteraction m
fits_interaction m h = (Within-Below _ _ (Within-more m.index h.2), Within-Below _ _ h.3, h.1)

-- With room for it, such a message is written.
pub encode_prepare-writes :
    (m : MsgPrepare) (s : Sink)
    → IsWhole m
    → length (message_bytes m) ≤ s.room
    → encode_prepare m s ≡ (none, sent (message_bytes m) s)
unfolding encode_prepare message_bytes
encode_prepare-writes done s h fits = absurd h
encode_prepare-writes (client m) s h fits =
    guarded-writes (check_client m) (client_chunks m) s ((check_client_iff m).1 (fits_client m h))
      fits
encode_prepare-writes (interaction m) s h fits =
    guarded-writes (check_interaction m) (interaction_chunks m) s
      ((check_interaction_iff m).1 (fits_interaction m h)) fits

-- And it is read back as it was.
pub reads_whole : (m : MsgPrepare) → IsWhole m → Parses decode_prepare (message_bytes m) m
unfolding message_bytes
reads_whole done h = absurd h
reads_whole (client m) h = rw (received_client-Within m h.2) at (reads_client m (fits_client m h))
reads_whole (interaction m) h =
    rw ((received_interaction-eq_iff m).1 (h.2, h.3)) at
      (reads_interaction m h.0 (fits_interaction m h))

pub reads_end : Parses decode_prepare (message_bytes done) done
unfolding decode_prepare decode_prepare_type message_bytes
reads_end = Parses-bind _ (Parses-byte type_done (omega arith)) (Parses-pure done)

pub message_bytes-long : (m : MsgPrepare) → 1 ≤ length (message_bytes m)
unfolding message_bytes client_chunks interaction_chunks byte
message_bytes-long done = omega arith
message_bytes-long (client m) = omega arith
message_bytes-long (interaction m) = omega arith

pub prepare_stream-long : (ms : List MsgPrepare) → length ms ≤ length (prepare_stream ms)
prepare_stream-long [] = omega (arith, message_bytes-long done)
prepare_stream-long (m ∷ ms) = omega (
  arith,
  message_bytes-long m,
  prepare_stream-long ms,
  length-append (message_bytes m) (prepare_stream ms),
)
