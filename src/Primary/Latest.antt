-- ===== src/Primary/Latest.antt =====
-- core/nprimary.go: the duration of a benchmark that `Run` computes, from the interactions that were
-- scheduled.
use diablo.Prelude.{
  ◌≤◌, ◌≡◌, refl, List, [], ◌∷◌, ◌++◌, All, All-append, All-append_left, All-append_right, All-get,
  All-set, set-All, ◌⊎◌, inl, inr, Bytes, arith, Bool-cases,
}
use diablo.Float.{Float64, IsNumber, rank, lt_float}
use diablo.Message.Prepare.{MsgPrepare, done, client, interaction}
use diablo.Primary.{
  RemoteClient, RemoteSecondary, new_remote_client, extend_time, schedule, latest, end_of,
  duration_of,
}
use diablo.Primary.Duration.{
  Before, zero-IsNumber, max_time-number_kind, schedule-max_time, latest_bounds, duration_of_bounds,
}
use diablo.Primary.Script.{Command, Plans, creates, sends, nothing, call}

-- The times of the interactions that are sent.
abbrev pub times_of : List MsgPrepare → List Float64
times_of [] = []
times_of (done ∷ ms) = times_of ms
times_of (client m ∷ ms) = times_of ms
times_of (interaction m ∷ ms) = m.time ∷ times_of ms

-- Secondaries that got their clients by calls of `createClient` and `sendInteraction`, and the times of
-- all interactions that these calls scheduled.
pub data Scheduled : List RemoteSecondary → List Float64 → Type 0 where
  nobody : Scheduled [] []
  secondary :
      {s : RemoteSecondary} {ss : List RemoteSecondary} {l : List Command} {ms : List MsgPrepare}
      {ts : List Float64}
      → Plans l [] ms s.clients
      → Scheduled ss ts
      → Scheduled (s ∷ ss) (times_of ms ++ ts)

abbrev AreNumbers : List RemoteClient → Type 0
AreNumbers cs = All (λ c. IsNumber c.max_time) cs

-- A schedule keeps one of the time that it gets and the time that it had.
max_time-schedule :
    (P : Float64 → Type 0) (kind : Bytes) (time : Float64) (encoded : Bytes) (c : RemoteClient)
    → P time
    → P c.max_time
    → P (schedule kind time encoded c).0.max_time
unfolding schedule extend_time
max_time-schedule P kind time encoded c new old =
    rw (max_time-number_kind kind (extend_time time c))
      (elim (Bool-cases (lt_float c.max_time time)) [
        | inl later ↦ rw (extend_time, later) new
        | inr early ↦ rw (extend_time, early) old
      ])

-- What holds of 0 and of the times that are scheduled holds of the clients' times and of the duration.
module _ (P : Float64 → Type 0) (zero_ok : P 0) where
  Plans-All :
      {l : List Command} {ms : List MsgPrepare} {cs cs' : List RemoteClient}
      → Plans l cs ms cs'
      → All (λ c. P c.max_time) cs
      → All P (times_of ms)
      → All (λ c. P c.max_time) cs'
  unfolding new_remote_client schedule
  Plans-All nothing old h = old
  Plans-All (call (creates {kind = kind} {cs = cs}) ps) old h =
      Plans-All ps (All-append (λ c. P c.max_time) cs _ old (zero_ok, tt)) h
  Plans-All
        (call
          (sends {id = id} {kind = kind} {time = time} {encoded = encoded} {cs = cs} c there)
          ps)
        old h =
      let here = All-get (λ c. P c.max_time) cs id c old there in
      Plans-All ps
        (All-set (λ c. P c.max_time) cs id _ old (max_time-schedule P kind time encoded c h.0 here))
        h.1

  latest-either :
      (m : Float64) (cs : List RemoteClient) → P m → All (λ c. P c.max_time) cs → P (latest m cs)
  unfolding latest
  latest-either m [] first h = first
  latest-either m (c ∷ cs) first h = elim (Bool-cases (lt_float m c.max_time)) [
    | inl later ↦ rw (latest, later) (latest-either c.max_time cs h.0 h.1)
    | inr early ↦ rw (latest, early) (latest-either m cs first h.1)
  ]

  duration_of-either :
      (m : Float64) {ss : List RemoteSecondary} {ts : List Float64}
      → Scheduled ss ts
      → P m
      → All P ts
      → P (duration_of m ss)
  unfolding duration_of end_of
  duration_of-either m nobody first h = first
  duration_of-either m (secondary {s = s} {ss = ss} {ms = ms} {ts = ts} plans rest) first h =
      let here = All-append_left P (times_of ms) ts h in
      let end_ok : P (end_of s) = latest-either 0 s.clients zero_ok (Plans-All plans tt here) in
      let more = All-append_right P (times_of ms) ts h in
      elim (Bool-cases (lt_float m (end_of s))) [
        | inl later ↦ rw (duration_of, later) (duration_of-either (end_of s) rest end_ok more)
        | inr early ↦ rw (duration_of, early) (duration_of-either m rest first more)
      ]

-- What is at or after the times of all clients is at or after all times that were scheduled.
Plans-Before :
    {l : List Command} {ms : List MsgPrepare} {cs cs' : List RemoteClient} (end : Float64)
    → Plans l cs ms cs'
    → All (λ c. IsNumber c.max_time) cs
    → All IsNumber (times_of ms)
    → All (Before end) cs'
    → All (Before end) cs × All (λ t. rank t ≤ rank end) (times_of ms)
unfolding new_remote_client schedule
Plans-Before end nothing numbers h b = (b, tt)
Plans-Before end (call (creates {kind = kind} {cs = cs}) ps) numbers h b =
    let numbers' = All-append (λ c. IsNumber c.max_time) cs _ numbers (zero-IsNumber, tt) in
    let (before, all) = Plans-Before end ps numbers' h b in
    (All-append_left (Before end) cs _ before, all)
Plans-Before end
      (call (sends {id = id} {kind = kind} {time = time} {encoded = encoded} {cs = cs} c there) ps)
      numbers h b =
    let number = All-get (λ c. IsNumber c.max_time) cs id c numbers there in
    let (number', above, above') = schedule-max_time kind time encoded c h.0 number in
    let c' = (schedule kind time encoded c).0 in
    let (before, all) =
      Plans-Before end ps (All-set (λ c. IsNumber c.max_time) cs id c' numbers number') h.1 b in
    let (last, old) = set-All (Before end) cs id c c' there before (λ p. omega arith) in
    (old, (omega arith, all))

ends :
    {ss : List RemoteSecondary} {ts : List Float64} (end : Float64)
    → Scheduled ss ts
    → All IsNumber ts
    → All (λ s. rank (end_of s) ≤ rank end) ss
    → All (λ t. rank t ≤ rank end) ts
unfolding end_of
ends end nobody numbers h = tt
ends end (secondary {s = s} {ss = ss} {ms = ms} {ts = ts} plans rest) numbers h =
    let here = All-append_left IsNumber (times_of ms) ts numbers in
    let cs = Plans-All IsNumber zero-IsNumber plans tt here in
    let (n, up, all) = latest_bounds 0 s.clients zero-IsNumber cs in
    let (kept, times) = Plans-Before end plans tt here (weaken s.clients (end_of s) all h.0) in
    All-append (λ t. rank t ≤ rank end) (times_of ms) ts times
      (ends end rest (All-append_right IsNumber (times_of ms) ts numbers) h.1)
  where
    weaken :
        (cs : List RemoteClient) (e : Float64)
        → All (Before e) cs
        → rank e ≤ rank end
        → All (Before end) cs
    weaken [] e h k = tt
    weaken (c ∷ cs) e h k = (omega arith, weaken cs e h.1 k)

end_of-IsNumber :
    {ss : List RemoteSecondary} {ts : List Float64}
    → Scheduled ss ts
    → All IsNumber ts
    → All (λ s. IsNumber (end_of s)) ss
unfolding end_of
end_of-IsNumber nobody numbers = tt
end_of-IsNumber (secondary {s = s} {ms = ms} {ts = ts} plans rest) numbers =
    let here = All-append_left IsNumber (times_of ms) ts numbers in
    (
      latest-either IsNumber zero-IsNumber 0 s.clients zero-IsNumber
          (Plans-All IsNumber zero-IsNumber plans tt here),
      end_of-IsNumber rest (All-append_right IsNumber (times_of ms) ts numbers),
    )

-- The time is one of the list.
abbrev pub IsOneOf : Float64 → List Float64 → Type 0
IsOneOf t [] = ⊥
IsOneOf t (u ∷ us) = (t ≡ u) ⊎ IsOneOf t us

All-IsOneOf :
    (P : Float64 → Type 0) (ts : List Float64) → ((t : Float64) → IsOneOf t ts → P t) → All P ts
All-IsOneOf P [] f = tt
All-IsOneOf P (t ∷ ts) f = (f t (inl refl), All-IsOneOf P ts (λ u m. f u (inr m)))

-- Suppose that the secondaries got their clients and interactions by calls of `createClient` and
-- `sendInteraction`, at times that are numbers. Then the duration that `Run` computes from them is at or
-- after the time of every interaction that was scheduled on any of them, and it is 0 or one of these
-- times.
pub duration_of-scheduled :
    (ss : List RemoteSecondary) (ts : List Float64)
    → Scheduled ss ts
    → All IsNumber ts
    → All (λ t. rank t ≤ rank (duration_of 0 ss)) ts
      × ((duration_of 0 ss ≡ 0) ⊎ IsOneOf (duration_of 0 ss) ts)
duration_of-scheduled ss ts scheduled numbers =
    let (n, up, all) = duration_of_bounds 0 ss zero-IsNumber (end_of-IsNumber scheduled numbers) in
    (
      ends (duration_of 0 ss) scheduled numbers all,
      duration_of-either (λ t. (t ≡ 0) ⊎ IsOneOf t ts) (inl refl) 0 scheduled (inl refl)
          (All-IsOneOf (λ t. (t ≡ 0) ⊎ IsOneOf t ts) ts (λ t m. inr m)),
    )
