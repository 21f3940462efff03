-- ===== src/Message/Start.antt =====
-- core/encoding.go: `msgStart`.
use diablo.Prelude.{none, [], ◌∷◌}
use diablo.Float.{Float64, IsFloat64}
use diablo.Wire.Sink.{Writer, guarded}
use diablo.Wire.Source.{Parser, ◌>>=◌, pure}
use diablo.Wire.Little.{little, read_little}
use diablo.Wire.Parses.{Parses-bind, Parses-pure, Parses-little}
use diablo.Message.Strings.{Transmits, guarded-Transmits}
use mathlib.Core.Path.{refl}

pub record MsgStart : Type 0 where
  pub duration : Float64

unfoldable pub encode_start : MsgStart → Writer
encode_start m = guarded none (little 8 m.duration ∷ [])

unfoldable pub decode_start : Parser MsgStart
decode_start = do duration ← read_little 8; pure (record { duration = duration })

-- A duration of 64 bits is always sent, and the secondary reads it bit for bit.
pub encode_start-decode_start :
    (m : MsgStart) → IsFloat64 m.duration → Transmits (encode_start m) decode_start m
unfolding encode_start decode_start
encode_start-decode_start m h =
    guarded-Transmits none (little 8 m.duration ∷ []) refl
      (Parses-bind _ (Parses-little 8 m.duration h) (Parses-pure m))
