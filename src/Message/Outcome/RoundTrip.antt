-- ===== src/Message/Outcome/RoundTrip.antt =====
-- The results that a secondary encodes are those that the primary decodes.
use diablo.Prelude.{
  ◌^◌, ◌<◌, ◌≡◌, refl, ◌↔◌, none, [], ◌∷◌, pos, wrap, wrap-lt, Below, Within, arith, Bool, true,
  false, ◌==◌,
}
use diablo.Float.{IsFloat64}
use diablo.Wire.Sink.{frame}
use diablo.Wire.Little.{byte}
use diablo.Wire.Parses.{Parses, Parses-bind, Parses-pure, Parses-byte, Parses-little}
use diablo.Message.Strings.{Transmits, Decides, guarded-Decides, guarded-Transmits}
use diablo.Message.Outcome.{
  MsgResultInteraction, done, interaction, check_result, result_chunks, encode_result,
  decode_result_type, decode_result, type_done, type_interaction, flag,
}

abbrev pub FitsResult : MsgResultInteraction → Type 0
FitsResult m = Below (2 ^ 32) m.index × Below 256 m.ikind

-- What Go's types say of the fields.
pub record IsResult (m : MsgResultInteraction) : Type 0 where
  pub submit : IsFloat64 m.submit_time
  pub commit : IsFloat64 m.commit_time
  pub abort : IsFloat64 m.abort_time

unfoldable pub received_result : MsgResultInteraction → MsgResultInteraction
received_result m = record m { index = pos (wrap (2 ^ 32) m.index); ikind = pos (wrap 256 m.ikind) }

pub check_result_iff : (m : MsgResultInteraction) → (check_result m ≡ none) ↔ FitsResult m
unfolding check_result
check_result_iff m = ground arith

flag-eq : (b : Bool) → (flag b == 1) ≡ b
flag-eq true = refl
flag-eq false = refl

flag-lt : (b : Bool) → flag b < 256
flag-lt true = omega arith
flag-lt false = omega arith

pub reads_result :
    (m : MsgResultInteraction)
    → IsResult m
    → FitsResult m
    → Parses decode_result (frame (result_chunks m)) (interaction (received_result m))
unfolding result_chunks decode_result decode_result_type received_result
reads_result m w h = Parses-bind _ (Parses-byte type_interaction (omega arith)) (
    Parses-bind _ (Parses-little 4 _ (wrap-lt _ _ (omega arith))) (
      Parses-bind _ (Parses-byte _ (wrap-lt 256 m.ikind (omega arith))) (
        Parses-bind _ (Parses-little 8 _ w.submit) (
          Parses-bind _ (Parses-little 8 _ w.commit) (
            Parses-bind _ (Parses-little 8 _ w.abort) (
              Parses-bind _ (Parses-byte (flag m.has_error) (flag-lt m.has_error))
                (rw (flag-eq m.has_error) (Parses-pure _))))))))

pub reads_done : Parses decode_result (frame (byte type_done ∷ [])) done
unfolding decode_result decode_result_type
reads_done = Parses-bind _ (Parses-byte type_done (omega arith)) (Parses-pure done)

-- The end marker is always written, and read back as itself.
pub encode_done-decode_result : Transmits (encode_result done) decode_result done
unfolding encode_result
encode_done-decode_result = guarded-Transmits none (byte type_done ∷ []) refl reads_done

-- The result of an interaction, with times of 64 bits, is transmitted if its client index is
-- below 2 ^ 32 and its kind below 256, and refused before a byte is written otherwise. The
-- primary reads the same times and the same error flag, the index modulo 2 ^ 32 and the kind
-- modulo 256.
pub encode_result-decode_result :
    (m : MsgResultInteraction)
    → IsResult m
    → Decides
        (FitsResult m)
        (encode_result (interaction m))
        decode_result
        (interaction (received_result m))
unfolding encode_result
encode_result-decode_result m w =
    guarded-Decides (check_result m) (result_chunks m) (check_result_iff m) (reads_result m w)

pub received_result-Within :
    (m : MsgResultInteraction)
    → Within (2 ^ 32) m.index
    → Within 256 m.ikind
    → received_result m ≡ m
unfolding received_result
received_result-Within m h k = ground arith
