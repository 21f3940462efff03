-- ===== src/Secondary/Lifecycle.antt =====
-- core/nsecondary.go: what a secondary notes of an interaction while the benchmark runs, and `stop`,
-- which sends it to the primary. The lock makes each report one step.
use diablo.Prelude.{ℕ, Bool, false, Option, none, some, List, [], ◌∷◌}
use diablo.Float.{Float64}
use diablo.Wire.Sink.{Writer, then_write}
use diablo.Message.Outcome.{MsgResultInteraction, done, interaction, encode_result}
use diablo.Secondary.{Blockchain, RuntimeInteraction}

-- `ReportSubmit`, `ReportCommit` and `ReportAbort` at a time of the clock, and the end of `trigger`,
-- with whether it failed. A time is in nanoseconds after the start.
pub data Step : Type 0 where
  submit commit abort : ℕ → Step
  finish : Bool → Step

-- `none` where the flag beside the field is not set.
pub record Progress : Type 0 where
  pub submit_time : Option ℕ
  pub commit_time : Option ℕ
  pub abort_time : Option ℕ
  pub failed : Option Bool

unfoldable pub not_started : Progress
not_started = record { submit_time = none; commit_time = none; abort_time = none; failed = none }

-- A second report only warns.
unfoldable pub keep_first : ℕ → Option ℕ → Option ℕ
keep_first t none = some t
keep_first t (some t') = some t'

unfoldable pub step : Step → Progress → Progress
unfolding keep_first
step (submit t) p = record p { submit_time = keep_first t p.submit_time }
step (commit t) p = record p { commit_time = keep_first t p.commit_time }
step (abort t) p = record p { abort_time = keep_first t p.abort_time }
step (finish b) p = record p { failed = some b }

unfoldable pub step_all : List Step → Progress → Progress
step_all [] p = p
step_all (x ∷ xs) p = step_all xs (step x p)

-- The float -1.
abbrev pub minus_one : Float64
minus_one = 13830554455654793216

unfoldable pub has_failed : Option Bool → Bool
has_failed none = false
has_failed (some b) = b

-- `seconds` is `Seconds` of the standard library's `Duration`.
module _ (chain : Blockchain) (seconds : ℕ → Float64) where
  unfoldable pub time_of : Option ℕ → Float64
  time_of none = minus_one
  time_of (some t) = seconds t

  -- The message that `stop` fills in for an interaction.
  unfoldable pub result_message : RuntimeInteraction chain × Progress → MsgResultInteraction
  unfolding time_of has_failed
  result_message (i, p) = record {
    index = i.client.id;
    ikind = i.ikind;
    submit_time = time_of p.submit_time;
    commit_time = time_of p.commit_time;
    abort_time = time_of p.abort_time;
    has_error = has_failed p.failed;
  }

  -- `stop`, up to the first error.
  unfoldable pub stop : List (RuntimeInteraction chain × Progress) → Writer
  stop [] s = encode_result done s
  stop (x ∷ xs) s = then_write (encode_result (interaction (result_message x)) s) (stop xs)
