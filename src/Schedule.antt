-- ===== src/Schedule.antt =====
-- core/nsecondary.go: `run`, from the sort of the interactions to the last one that it triggers. A
-- goroutine that `run` starts is a pair of the interaction and of what the clock said before; `stop`,
-- which follows, is that of Secondary.Lifecycle.
pub mod Stable
pub mod Run
use diablo.Prelude.{Option, none, some, List, [], ◌∷◌, Bytes, if◌then◌else◌}
use diablo.Float.{Float64, lt_float}
use diablo.Wire.Errors.{Result, ok, err, and_then}
use diablo.Wire.Sink.{Sink}
use diablo.Message.Prepare.{done, encode_prepare}
use diablo.Message.Start.{decode_start}
use diablo.Secondary.{Blockchain, RuntimeInteraction}

-- `sort.SliceStable` of the standard library, as a sort that inserts.
module _ {A : Type 0} (time : A → Float64) where
  -- An element goes behind those that are not later.
  unfoldable pub insert_by : A → List A → List A
  insert_by x [] = x ∷ []
  insert_by x (y ∷ ys) =
      let rest = insert_by x ys in if lt_float (time x) (time y) then x ∷ y ∷ ys else y ∷ rest

  unfoldable pub sort_onto : List A → List A → List A
  sort_onto sorted [] = sorted
  sort_onto sorted (x ∷ xs) = sort_onto (insert_by x sorted) xs

  unfoldable pub slice_stable : List A → List A
  slice_stable xs = sort_onto [] xs

-- The clock of the machine: its state, `time.Now().Sub(start).Seconds()`, and `time.Sleep` of the second
-- time less the first.
pub record Clock : Type 1 where
  pub State : Type 0
  pub read : State → Float64 × State
  pub sleep : Float64 → Float64 → State → State

module _ (chain : Blockchain) (clock : Clock) where
  open clock use {State, read, sleep}

  -- The difference of two floats is above 0 exactly when the second is below the first. When the
  -- interaction is late, there is at most a warning.
  unfoldable pub wait_for : Float64 → Float64 → State → State
  wait_for now next_time s = if lt_float now next_time then sleep now next_time s else s

  -- The loop over the interactions, with what the clock said last.
  unfoldable pub trigger_loop :
      List (RuntimeInteraction chain)
      → Float64
      → State
      → List (RuntimeInteraction chain × Float64) × State
  unfolding wait_for
  trigger_loop [] now s = ([], s)
  trigger_loop (i ∷ is) now s =
      let (now', s') = read (wait_for now i.sched_time s) in
      let (rest, s'') = trigger_loop is now' s' in ((i, now') ∷ rest, s'')

  -- `run`, with what is left of the input, and with the output after the message to the primary.
  unfoldable pub run :
      List (RuntimeInteraction chain)
      → State
      → Bytes
      → Sink
      → Result (List (RuntimeInteraction chain × Float64) × State × Bytes × Sink)
  unfolding slice_stable
  run interactions s input out =
      let sorted = slice_stable (λ i. i.sched_time) interactions in
      let (e, out') = encode_prepare done out in
      elim e [
        | some e' ↦ err e'
        | none ↦ and_then (decode_start input) (λ start.
            let (now, s') = read s in
            let (triggered, s'') = trigger_loop sorted now s' in ok (triggered, s'', start.1, out'))
      ]
