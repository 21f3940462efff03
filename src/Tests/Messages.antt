-- ===== src/Tests/Messages.antt =====
-- The messages of core/encoding.go at concrete inputs.
use diablo.Prelude.{refl, ◌↔◌, [], ◌∷◌, bytes_key, pos, Within, DistinctKeys, lookup, arith, true}
use diablo.Wire.Sink.{frame}
use diablo.Wire.Parses.{Parses}
use diablo.Message.Strings.{Decides}
use diablo.Message.Params.{
  MsgPrimaryParameters, MsgSecondaryParameters, encode_primary, decode_primary,
}
use diablo.Message.Params.RoundTrip.{
  FitsPrimary, IsPrimaryParameters, encode_primary-decode_primary,
}
use diablo.Message.Prepare.{
  MsgPrepareInteraction, interaction, interaction_chunks, encode_prepare, decode_prepare,
}
use diablo.Message.Prepare.RoundTrip.{
  FitsInteraction, received_interaction, encode_interaction-decode_prepare,
  interaction_chunks-Parses_iff,
}
use diablo.Message.Start.{MsgStart}
use diablo.Message.Outcome.{MsgResultInteraction, encode_result, decode_result}
use diablo.Message.Outcome as Outcome
use diablo.Message.Outcome.RoundTrip.{FitsResult, received_result, encode_result-decode_result}

abbrev parameters : MsgPrimaryParameters
parameters = record {
  sysname = 110 ∷ [];
  chain_params = (97 ∷ [], 49 ∷ 50 ∷ []) ∷ (98 ∷ [], []) ∷ [];
  max_delay = 1;
  max_skew = 2;
}

parameters_typed : IsPrimaryParameters parameters
unfolding DistinctKeys lookup
parameters_typed = record { keys = (refl, (refl, tt)); delay = omega arith; skew = omega arith }

encode_primary-decode_primary_example :
    Decides (FitsPrimary parameters) (encode_primary parameters) decode_primary parameters
encode_primary-decode_primary_example = encode_primary-decode_primary parameters parameters_typed

abbrev two_tags : MsgSecondaryParameters
two_tags = record { tags = (97 ∷ 98 ∷ []) ∷ (99 ∷ []) ∷ [] }

-- An interaction of a client whose index needs more than a byte.
abbrev far_interaction : MsgPrepareInteraction
far_interaction = record { index = pos 300; ikind = pos 2; time = 5; payload = 1 ∷ 2 ∷ [] }

encode_interaction-decode_prepare_example :
    Decides
      (FitsInteraction far_interaction)
      (encode_prepare (interaction far_interaction))
      decode_prepare
      (interaction (received_interaction far_interaction))
encode_interaction-decode_prepare_example =
    encode_interaction-decode_prepare far_interaction (omega arith)

interaction_chunks-Parses_iff_example :
    Parses decode_prepare (frame (interaction_chunks far_interaction)) (interaction far_interaction)
    ↔ (Within 256 (pos 300) × Within 256 (pos 2))
interaction_chunks-Parses_iff_example =
    interaction_chunks-Parses_iff far_interaction (omega arith) (refl, refl, omega arith)

abbrev one_second : MsgStart
one_second = record { duration = 0x3ff0_0000_0000_0000 }

abbrev failed_result : MsgResultInteraction
failed_result = record {
  index = pos 7;
  ikind = pos 1;
  submit_time = 3;
  commit_time = 4;
  abort_time = 5;
  has_error = true;
}

encode_result-decode_result_example :
    Decides
      (FitsResult failed_result)
      (encode_result (Outcome.interaction failed_result))
      decode_result
      (Outcome.interaction (received_result failed_result))
encode_result-decode_result_example =
    encode_result-decode_result failed_result
      (record { submit = omega arith; commit = omega arith; abort = omega arith })
