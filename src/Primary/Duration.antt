-- ===== src/Primary/Duration.antt =====
-- The times that the primary keeps: a client's latest interaction, a secondary's, the benchmark's.
use diablo.Prelude.{◌≤◌, ◌≡◌, refl, List, [], ◌∷◌, Bytes, All, arith, if◌then◌else◌}
use diablo.Float.{Float64, IsNumber, rank, lt_float, later_bounds, is_nan}
use diablo.Primary.{
  RemoteClient, RemoteSecondary, extend_time, number_kind, schedule, latest, end_of, duration_of,
}

-- A client's time is a number and is not above the result.
abbrev pub Before : Float64 → RemoteClient → Type 0
Before end c = rank c.max_time ≤ rank end

pub zero-IsNumber : IsNumber 0
unfolding is_nan
zero-IsNumber = refl

pub max_time-number_kind :
    (kind : Bytes) (c : RemoteClient) → (number_kind kind c).1.max_time ≡ c.max_time
unfolding number_kind
max_time-number_kind kind c = ground arith

max_time-extend_time :
    (time : Float64) (c : RemoteClient)
    → IsNumber time
    → IsNumber c.max_time
    → IsNumber (extend_time time c).max_time
      × (rank time ≤ rank (extend_time time c).max_time)
      × (rank c.max_time ≤ rank (extend_time time c).max_time)
unfolding extend_time
max_time-extend_time time c ht hc = ground (arith, later_bounds c.max_time time hc ht)

pub latest_bounds :
    (m : Float64) (cs : List RemoteClient)
    → IsNumber m
    → All (λ c. IsNumber c.max_time) cs
    → IsNumber (latest m cs) × (rank m ≤ rank (latest m cs)) × All (Before (latest m cs)) cs
unfolding latest
latest_bounds m [] hm h = (hm, omega arith, tt)
latest_bounds m (c ∷ cs) hm h =
    let (n, ge, ge') = later_bounds m c.max_time hm h.0 in
    let (n', up, all) = latest_bounds (if lt_float m c.max_time then c.max_time else m) cs n h.1 in
    (n', omega arith, (omega arith, all))

-- If the client's time is a number, scheduling an interaction at a time that is a number leaves a
-- number that is at or after both.
pub schedule-max_time :
    (kind : Bytes) (time : Float64) (encoded : Bytes) (c : RemoteClient)
    → IsNumber time
    → IsNumber c.max_time
    → IsNumber (schedule kind time encoded c).0.max_time
      × (rank time ≤ rank (schedule kind time encoded c).0.max_time)
      × (rank c.max_time ≤ rank (schedule kind time encoded c).0.max_time)
unfolding schedule
schedule-max_time kind time encoded c ht hc =
    rw (max_time-number_kind kind (extend_time time c)) (max_time-extend_time time c ht hc)

-- The loop over the secondaries that starts with `d`, where `d` and the end of every secondary
-- are numbers, gives a number at or after `d` and the end of every secondary.
pub duration_of_bounds :
    (d : Float64) (ss : List RemoteSecondary)
    → IsNumber d
    → All (λ s. IsNumber (end_of s)) ss
    → IsNumber (duration_of d ss)
      × (rank d ≤ rank (duration_of d ss))
      × All (λ s. rank (end_of s) ≤ rank (duration_of d ss)) ss
unfolding duration_of
duration_of_bounds d [] hd h = (hd, omega arith, tt)
duration_of_bounds d (s ∷ ss) hd h =
    let (n, ge, ge') = later_bounds d (end_of s) hd h.0 in
    let (n', up, all) =
      duration_of_bounds (if lt_float d (end_of s) then end_of s else d) ss n h.1 in
    (n', omega arith, (omega arith, all))
