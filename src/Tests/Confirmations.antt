-- ===== src/Tests/Confirmations.antt =====
-- The confirmer of Ethereum at concrete inputs.
use diablo.Prelude.{ℕ, ◌≤◌, ◌≡◌, refl, none, some, List, [], ◌∷◌, Bytes, bytes_key, lookup, insert}
use diablo.Wire.Errors.{Error}
use diablo.Ethereum.Confirmer.{
  committed, giving, delete, entries_of, Confirmer, new_confirmer, Event, confirm, block, flush,
  report, step, run, polling, idle, waiting, sending, returned, update, has,
}
use diablo.Ethereum.Confirmer.Once.{reports_of, run-reports}
use diablo.Ethereum.Confirmer.Delivery.{rounds, block-delivers, confirm-deadlock}

-- The interaction 4 waits under the hash 9.
abbrev one_waits : Confirmer
one_waits = record {
  holder = none;
  failure = none;
  pendings = some ((9 ∷ [], 4) ∷ []);
  done = [];
  pc = update (λ i. idle) 4 waiting;
  runner = polling;
  reports = [];
}

block-delivers_example :
    (n : ℕ) × (t : Confirmer) × (run (block ((8 ∷ []) ∷ (9 ∷ []) ∷ []) ∷ rounds n) one_waits
      ≡ some t)
    × (t.pc 4 ≡ returned none)
    × (reports_of 4 t.reports ≡ 1)
    × (t.runner ≡ polling)
unfolding run step new_confirmer has lookup insert
block-delivers_example =
    block-delivers (confirm 4 (9 ∷ []) ∷ []) one_waits ((9 ∷ [], 4) ∷ []) 4 (9 ∷ [])
      ((8 ∷ []) ∷ (9 ∷ []) ∷ []) refl refl refl refl refl refl

-- It was reported and not woken yet.
abbrev one_reported : Confirmer
one_reported = record {
  holder = none;
  failure = none;
  pendings = some [];
  done = (8 ∷ []) ∷ [];
  pc = update (λ i. idle) 4 waiting;
  runner = giving none (4 ∷ []);
  reports = committed 4 ∷ [];
}

run-reports_example :
    (reports_of 4 (committed 4 ∷ []) ≤ 1)
    × (one_reported.pc 4 ≡ idle → reports_of 4 (committed 4 ∷ []) ≡ 0)
unfolding run step new_confirmer has lookup insert delete entries_of
run-reports_example =
    run-reports (confirm 4 (9 ∷ []) ∷ block ((8 ∷ []) ∷ (9 ∷ []) ∷ []) ∷ report ∷ []) one_reported
      refl 4

-- The hash 9 was in a block before.
abbrev one_late : Confirmer
one_late = record {
  holder = none;
  failure = none;
  pendings = some [];
  done = (9 ∷ []) ∷ [];
  pc = λ i. idle;
  runner = polling;
  reports = [];
}

confirm-deadlock_example :
    (s : Confirmer) × (step (confirm 4 (9 ∷ [])) one_late ≡ some s)
    × ((es : List Event) (t : Confirmer)
        → run es s ≡ some t
        → (t.pc 4 ≡ sending)
          × ((j : ℕ) (k : Bytes) → step (confirm j k) t ≡ none)
          × ((hs : List Bytes) → step (block hs) t ≡ none)
          × ((e : Error) → step (flush e) t ≡ none))
unfolding has
confirm-deadlock_example = confirm-deadlock 4 (9 ∷ []) [] one_late refl refl refl refl
