-- ===== src/Tests/Connection.antt =====
-- The two ends of a connection at concrete inputs.
use diablo.Prelude.{
  suc, ◌≡◌, ◌≢◌, refl, none, some, List, [], ◌∷◌, ◌++◌, Bytes, ℤ, pos, length, arith, All, lookup,
  true,
}
use diablo.Wire.Errors.{ok, err, and_then, out_of_fuel}
use diablo.Float.{lt_float}
use diablo.Wire.Sink.{Sink, sent}
use diablo.Message.Prepare.{MsgPrepare, client, interaction, client_chunks, interaction_chunks}
use diablo.Message.Outcome.{result_chunks}
use diablo.Message.Strings.{string_chunks}
use diablo.Wire.Little.{byte, little}
use diablo.Message.Prepare.Stream.{IsWhole, message_bytes, prepare_stream}
use diablo.Primary.{
  RemoteClient, RemoteSecondary, new_remote_client, schedule, number_kind, extend_time,
}
use diablo.Primary.Script.{Command, create, send, creates, sends, Plans, nothing, call, remote}
use diablo.Primary.Collect.{collect}
use diablo.Primary.Collect.Ends.{collect-ne-fuel}
use diablo.Primary.Collect.Reads.{IsPlaced, stream, reported, collect-reported}
use diablo.Report.{SecondaryResult}
use diablo.Report.Grouping.{interactions_of}
use diablo.Secondary.{Blockchain, RuntimeInteraction, Preparation, prepare_loop}
use diablo.Secondary.Ends.{HasOwnErrors, prepare_loop-ne-fuel}
use diablo.Secondary.Prepared.{handle_all}
use diablo.Secondary.Lifecycle.{Progress, result_message, time_of, has_failed, stop}
use diablo.Session.{perform_ready, perform_ready-handle_all}
use diablo.Session.Results.{results, stop-collect}

-- A blockchain whose clients are their views, and whose payloads are the bytes.
abbrev echo : Blockchain
echo = record {
  Client = List Bytes;
  Payload = Bytes;
  new_client = λ params view. ok view;
  decode_payload = λ c payload. ok payload;
}

echo-HasOwnErrors : HasOwnErrors echo
echo-HasOwnErrors = record { new_client = λ params view e. cc }

abbrev unprepared : Preparation echo
unprepared = record { clients = []; pending = [] }

prepare_loop-ne-fuel_example : prepare_loop echo 4 [] unprepared (1 ∷ 0 ∷ 0 ∷ []) ≢ err out_of_fuel
prepare_loop-ne-fuel_example =
    prepare_loop-ne-fuel echo echo-HasOwnErrors [] 4 unprepared (1 ∷ 0 ∷ 0 ∷ []) (omega arith)

abbrev roomy : Sink
roomy = record { written = []; room = 1000 }

abbrev first_client : RemoteClient
first_client = record { index = 0; kind = 99 ∷ []; max_time = 0; kinds = []; ikinds = [] }

abbrev create_and_send : List Command
create_and_send = create (99 ∷ []) ((49 ∷ []) ∷ []) ∷ send 0 (107 ∷ []) 5 (1 ∷ 2 ∷ []) ∷ []

abbrev two_messages : List MsgPrepare
two_messages =
    client (record { view = (49 ∷ []) ∷ []; index = pos 0 })
    ∷ interaction (schedule (107 ∷ []) 5 (1 ∷ 2 ∷ []) first_client).1
    ∷ []

abbrev clients_after : List RemoteClient
clients_after = (schedule (107 ∷ []) 5 (1 ∷ 2 ∷ []) first_client).0 ∷ []

create_and_send-Plans : Plans create_and_send [] two_messages clients_after
unfolding new_remote_client
create_and_send-Plans = call creates (call (sends first_client refl) nothing)

two_messages-IsWhole : All IsWhole two_messages
unfolding schedule number_kind extend_time lookup lt_float
two_messages-IsWhole = (
  (omega arith, (omega arith, tt), omega arith),
  ((omega arith, omega arith, omega arith, omega arith), tt),
)

perform_ready-handle_all_example :
    (perform_ready create_and_send (remote (97 ∷ []) [] [] roomy)
      ≡ (none, remote (97 ∷ []) [] clients_after (sent (prepare_stream two_messages) roomy)))
    × (prepare_loop echo
          (suc (length (prepare_stream two_messages ++ 9 ∷ [])))
          []
          unprepared
          (prepare_stream two_messages ++ 9 ∷ [])
        ≡ and_then (handle_all echo [] two_messages unprepared) (λ p'. ok (p', 9 ∷ [])))
unfolding message_bytes client_chunks interaction_chunks byte little string_chunks schedule
    number_kind lookup
perform_ready-handle_all_example =
    perform_ready-handle_all echo [] (97 ∷ []) [] create_and_send-Plans roomy unprepared (9 ∷ [])
      two_messages-IsWhole (omega arith)

abbrev named_client : RemoteClient
named_client = record {
  index = 0;
  kind = 99 ∷ [];
  max_time = 5;
  kinds = (107 ∷ []) ∷ [];
  ikinds = (107 ∷ [], 0) ∷ [];
}

abbrev primary_side : RemoteSecondary
primary_side = remote (97 ∷ []) [] (named_client ∷ []) roomy

collect-ne-fuel_example : collect primary_side (1 ∷ 2 ∷ []) ≢ err out_of_fuel
collect-ne-fuel_example = collect-ne-fuel primary_side (1 ∷ 2 ∷ [])

-- The interaction was submitted after 3 nanoseconds, and its trigger failed.
abbrev triggered : RuntimeInteraction echo
triggered = record {
  client = record { id = pos 0; inner = (49 ∷ []) ∷ [] };
  ikind = pos 0;
  sched_time = 5;
  opaque = 1 ∷ 2 ∷ [];
}

abbrev progress : Progress
progress = record {
  submit_time = some 3;
  commit_time = none;
  abort_time = none;
  failed = some true;
}

abbrev one_result : List (RuntimeInteraction echo × Progress)
one_result = (triggered, progress) ∷ []

one_result-IsPlaced : All (IsPlaced primary_side.clients) (results echo (λ t. t) one_result)
unfolding result_message time_of has_failed
one_result-IsPlaced = (
  record {
    typed = record { submit = omega arith; commit = omega arith; abort = omega arith };
    client = omega arith;
    ikind = omega arith;
    kinds = (99 ∷ [], 107 ∷ []);
    named = refl;
  },
  tt,
)

collect-reported_example :
    (r : SecondaryResult) × (collect primary_side
        (stream (results echo (λ t. t) one_result) ++ 9 ∷ [])
      ≡ ok (r, 9 ∷ []))
    × ((id : ℤ)
        → interactions_of r id
          ≡ reported primary_side.clients (results echo (λ t. t) one_result) id)
collect-reported_example =
    collect-reported primary_side (results echo (λ t. t) one_result) (9 ∷ []) one_result-IsPlaced

stop-collect_example :
    (stop echo (λ t. t) one_result roomy
      ≡ (none, sent (stream (results echo (λ t. t) one_result)) roomy))
    × (r : SecondaryResult) × (collect primary_side
          (stream (results echo (λ t. t) one_result) ++ 9 ∷ [])
        ≡ ok (r, 9 ∷ []))
    × ((id : ℤ)
        → interactions_of r id
          ≡ reported primary_side.clients (results echo (λ t. t) one_result) id)
unfolding result_chunks byte little
stop-collect_example =
    stop-collect echo (λ t. t) primary_side one_result roomy (9 ∷ []) one_result-IsPlaced
      (omega arith)
