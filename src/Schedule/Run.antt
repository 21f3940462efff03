-- ===== src/Schedule/Run.antt =====
-- When `run` of core/nsecondary.go triggers the interactions.
use diablo.Prelude.{◌≤◌, ◌≡◌, true, List, map, All}
use diablo.Float.{Float64, IsNumber, rank, lt_float}
use diablo.Wire.Sink.{Sink}
use diablo.Secondary.{Blockchain, RuntimeInteraction}
use diablo.Schedule.{Clock}
use diablo.Schedule.Stable.{IsSorted, IsFrom}

-- What the standard library says of the clock, which is monotonic: it gives numbers, does not go back from
-- one reading to the next, and a sleep until a time after the reading lasts until that time at least. (The
-- duration of a sleep is cut to whole nanoseconds; the law holds of a clock that passes this rest too.)
pub record IsClock (clock : Clock) : Type 0 where
  pub number : (s : clock.State) → IsNumber (clock.read s).0
  pub monotonic : (s : clock.State) → rank (clock.read s).0 ≤ rank (clock.read (clock.read s).1).0
  pub sleeps :
      (s : clock.State) (next : Float64)
      → lt_float (clock.read s).0 next ≡ true
      → rank next ≤ rank (clock.read (clock.sleep (clock.read s).0 next (clock.read s).1)).0

module _ (chain : Blockchain) (clock : Clock) (laws : IsClock clock) where
  abbrev sched : RuntimeInteraction chain → Float64
  sched i = i.sched_time

  -- What the loop triggers, from a reading on.
  Kept :
      List (RuntimeInteraction chain) → Float64 → List (RuntimeInteraction chain × Float64) → Type 0
  Kept is now triggered =
      (map (λ t. t.0) triggered ≡ is)
      × All (λ t. rank (sched t.0) ≤ rank t.1) triggered
      × IsFrom (λ t. t.1) (rank now) triggered
      × IsSorted (λ t. t.1) triggered
