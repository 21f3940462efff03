-- ===== src/Message/Outcome.antt =====
-- core/encoding.go: `msgResultDone` and `msgResultInteraction`, by which a secondary reports.
pub mod RoundTrip
use diablo.Prelude.{
  ℕ, ◌^◌, Bool, true, false, Option, none, some, List, [], ◌∷◌, Bytes, ℤ, pos, wrap, leb_ℤ, ◌==◌,
  if◌then◌else◌,
}
use diablo.Float.{Float64}
use diablo.Wire.Errors.{
  Error, client_index_too_large, interaction_kind_too_large, unknown_result_type,
}
use diablo.Wire.Sink.{Writer, guarded}
use diablo.Wire.Source.{Parser, ◌>>=◌, pure, fail, read_byte}
use diablo.Wire.Little.{byte, little, read_little}

-- A time is negative where the event did not happen.
pub record MsgResultInteraction : Type 0 where
  pub index : ℤ
  pub ikind : ℤ
  pub submit_time : Float64
  pub commit_time : Float64
  pub abort_time : Float64
  pub has_error : Bool

pub data MsgResult : Type 0 where
  done : MsgResult
  interaction : MsgResultInteraction → MsgResult

-- MSG_RESULT_TYPE_DONE and MSG_RESULT_TYPE_INTERACTION
abbrev pub type_done : ℕ
type_done = 0

abbrev pub type_interaction : ℕ
type_interaction = 1

unfoldable pub check_result : MsgResultInteraction → Option Error
check_result m =
    if leb_ℤ (2 ^ 32) m.index
    then some (client_index_too_large m.index)
    else if leb_ℤ 256 m.ikind
    then some (interaction_kind_too_large m.ikind)
    else none

abbrev pub flag : Bool → ℕ
flag b = if b then 1 else 0

unfoldable pub result_chunks : MsgResultInteraction → List Bytes
result_chunks m =
    byte type_interaction
    ∷ little 4 (wrap (2 ^ 32) m.index)
    ∷ byte (wrap 256 m.ikind)
    ∷ little 8 m.submit_time
    ∷ little 8 m.commit_time
    ∷ little 8 m.abort_time
    ∷ byte (flag m.has_error)
    ∷ []

unfoldable pub decode_result_interaction : Parser MsgResult
decode_result_interaction = do
  index ← read_little 4
  ikind ← read_byte
  submit ← read_little 8
  commit ← read_little 8
  abort ← read_little 8
  error ← read_byte
  pure (
      interaction (record {
        index = pos index;
        ikind = pos ikind;
        submit_time = submit;
        commit_time = commit;
        abort_time = abort;
        has_error = error == 1;
      }))

-- `encode` of the interface `msgResult`.
unfoldable pub encode_result : MsgResult → Writer
encode_result done = guarded none (byte type_done ∷ [])
encode_result (interaction m) = guarded (check_result m) (result_chunks m)

-- `switch (mtype[0])`
unfoldable pub decode_result_type : ℕ → Parser MsgResult
unfolding decode_result_interaction
decode_result_type mtype =
    if mtype == type_done
    then pure done
    else if mtype == type_interaction
    then decode_result_interaction
    else fail (unknown_result_type mtype)

unfoldable pub decode_result : Parser MsgResult
decode_result = do mtype ← read_byte; decode_result_type mtype
