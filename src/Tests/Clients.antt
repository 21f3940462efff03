-- ===== src/Tests/Clients.antt =====
-- The primary's clients and times, and the reports of a secondary, at concrete inputs.
use diablo.Prelude.{
  ℕ, ◌≡◌, ◌≤◌, refl, false, some, List, [], ◌∷◌, ◌++◌, All, pos, get_elem?, lookup, ◌⊎◌, eq_ℤ,
  if◌then◌else◌,
}
use diablo.Float.{Float64, IsNumber, rank, is_nan, lt_float}
use diablo.Wire.Sink.{Sink}
use diablo.Primary.{
  RemoteClient, RemoteSecondary, new_remote_client, schedule, end_of, duration_of, latest,
  extend_time, number_kind,
}
use diablo.Primary.Kinds.{IsNumbered, IsNumbered-new, schedule-IsNumbered}
use diablo.Primary.Latest.{Scheduled, nobody, secondary, IsOneOf, duration_of-scheduled}
use diablo.Primary.Script.{creates, sends, nothing, call}
use diablo.Report.{InteractionResult, SecondaryResult, new_secondary_result, add_result}
use diablo.Report.Grouping.{IsIndexed, IsIndexed-new, interactions_of, interactions_of-add_result}
use diablo.Secondary.Lifecycle.{Step, submit, commit, finish, not_started, step_all}
use diablo.Secondary.Reports.{
  submitted, committed, aborted, finished, first_of, last_of, step_all-first,
}

abbrev fresh : RemoteClient
fresh = record { index = 0; kind = 99 ∷ []; max_time = 0; kinds = []; ikinds = [] }

fresh-IsNumbered : IsNumbered fresh
unfolding new_remote_client
fresh-IsNumbered = IsNumbered-new 0 (99 ∷ [])

-- The float 1.
abbrev one : Float64
one = 0x3ff0_0000_0000_0000

schedule-IsNumbered_example :
    IsNumbered (schedule (107 ∷ []) one (1 ∷ []) fresh).0
    × ((n : ℕ) × ((schedule (107 ∷ []) one (1 ∷ []) fresh).1.ikind ≡ pos n)
        × (get_elem? (schedule (107 ∷ []) one (1 ∷ []) fresh).0.kinds n ≡ some (107 ∷ [])))
schedule-IsNumbered_example = schedule-IsNumbered (107 ∷ []) one (1 ∷ []) fresh fresh-IsNumbered

one-IsNumber : IsNumber one
unfolding is_nan
one-IsNumber = refl

abbrev empty_sink : Sink
empty_sink = record { written = []; room = 100 }

-- A secondary with one client, which got one interaction at 1.
abbrev its_client : RemoteClient
its_client = (schedule (107 ∷ []) one (1 ∷ []) (new_remote_client 0 (99 ∷ []))).0

abbrev busy : RemoteSecondary
busy = record { addr = 97 ∷ []; tags = []; clients = its_client ∷ []; out = empty_sink }

busy-Scheduled : Scheduled (busy ∷ []) (one ∷ [])
unfolding schedule
busy-Scheduled =
    secondary
      (call (creates {kind = 99 ∷ []} {view = []}) (
        call
          (sends {id = 0} {kind = 107 ∷ []} {time = one} {encoded = 1 ∷ []}
            (new_remote_client 0 (99 ∷ [])) refl)
          nothing))
      nobody

duration_of-scheduled_example :
    All (λ t. rank t ≤ rank (duration_of 0 (busy ∷ []))) (one ∷ [])
    × ((duration_of 0 (busy ∷ []) ≡ 0) ⊎ IsOneOf (duration_of 0 (busy ∷ [])) (one ∷ []))
duration_of-scheduled_example =
    duration_of-scheduled (busy ∷ []) (one ∷ []) busy-Scheduled (one-IsNumber, tt)

busy_duration : duration_of 0 (busy ∷ []) ≡ one
unfolding duration_of end_of latest lt_float schedule extend_time number_kind new_remote_client
    lookup is_nan rank
busy_duration = refl

abbrev no_results : SecondaryResult
no_results = record { address = 97 ∷ []; tags = []; ids = []; clients = [] }

abbrev committed_result : InteractionResult
committed_result = record {
  kind = 107 ∷ [];
  submit_time = one;
  commit_time = one;
  abort_time = 0;
  has_error = false;
}

no_results-IsIndexed : IsIndexed no_results
unfolding new_secondary_result
no_results-IsIndexed = IsIndexed-new (97 ∷ []) []

interactions_of-add_result_example :
    interactions_of (add_result (pos 4) (99 ∷ []) committed_result no_results) (pos 4) ≡ (
      if eq_ℤ (pos 4) (pos 4)
      then interactions_of no_results (pos 4) ++ committed_result ∷ []
      else interactions_of no_results (pos 4))
interactions_of-add_result_example =
    interactions_of-add_result (pos 4) (99 ∷ []) no_results no_results-IsIndexed committed_result
      (pos 4)

abbrev steps : List Step
steps = submit 3 ∷ commit 8 ∷ submit 9 ∷ finish false ∷ []

step_all-first_example :
    ((step_all steps not_started).submit_time ≡ first_of submitted steps)
    × ((step_all steps not_started).commit_time ≡ first_of committed steps)
    × ((step_all steps not_started).abort_time ≡ first_of aborted steps)
    × ((step_all steps not_started).failed ≡ last_of finished steps)
step_all-first_example = step_all-first steps
