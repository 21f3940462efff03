-- ===== src/Ethereum/Confirmer/Once.antt =====
-- No interaction is reported twice by the confirmer of blockchains/nethereum/client.go.
use diablo.Prelude.{
  ap, ℕ, ◌+◌, ◌≤◌, ◌≡◌, refl, Bool, true, false, Option, none, some, List, [], ◌∷◌, ◌++◌, Bytes,
  bytes_key, Map, lookup, insert, ◌==◌, if◌then◌else◌, arith,
}
use mathlib.Core.Path.{subst}
use diablo.Wire.Errors.{Error}
use diablo.Ethereum.Confirmer.{
  Report, committed, aborted, Pc, idle, waiting, sending, returned, Runner, polling, ended, owing,
  giving, Confirmer, new_confirmer, update, delete, values_of, confirm_found, confirm_locked,
  report_one, report_hashes, next_of, report_of, Event, confirm, block, flush, report, deliver,
  confirm_at, entries_of, unless_nil, block_at, flush_at, report_at, hand_over, deliver_at, locked,
  step, run, has,
}

abbrev pub times : ℕ → List ℕ → ℕ
times i [] = 0
times i (j ∷ is) = (if j == i then 1 else 0) + times i is

abbrev is_of : ℕ → Report → ℕ
is_of i (committed j) = if j == i then 1 else 0
is_of i (aborted j) = if j == i then 1 else 0

-- How often an interaction was reported.
abbrev pub reports_of : ℕ → List Report → ℕ
reports_of i [] = 0
reports_of i (r ∷ rs) = is_of i r + reports_of i rs

-- The interactions that `run` has yet to report, and those that it has yet to wake.
abbrev pub unreported : Runner → List ℕ
unreported (owing e is) = is
unreported (giving e (i ∷ is)) = is
unreported (giving e []) = []
unreported polling = []
unreported ended = []

abbrev pub in_hand : Runner → List ℕ
in_hand (owing e is) = is
in_hand (giving e is) = is
in_hand polling = []
in_hand ended = []

abbrev pub begun : Pc → ℕ
begun idle = 0
begun waiting = 1
begun sending = 1
begun (returned e) = 1

abbrev pub waits : Pc → ℕ
waits idle = 0
waits waiting = 1
waits sending = 0
waits (returned e) = 0

pub record IsSound (s : Confirmer) : Type 0 where
  pub once :
      (i : ℕ)
      → reports_of i s.reports
          + times i (values_of (entries_of s.pendings))
          + times i (unreported s.runner)
        ≤ begun (s.pc i)
  pub held :
      (i : ℕ)
      → times i (values_of (entries_of s.pendings)) + times i (in_hand s.runner) ≤ waits (s.pc i)

pub report_of-times : (f : Option Error) (j i : ℕ) → is_of i (report_of f j) ≡ times i (j ∷ [])
unfolding report_of
report_of-times none j i = omega arith
report_of-times (some e) j i = omega arith

pub reports_of-append :
    (i : ℕ) (rs : List Report) (r : Report)
    → reports_of i (rs ++ r ∷ []) ≡ reports_of i rs + is_of i r
reports_of-append i [] r = omega arith
reports_of-append i (q ∷ rs) r = omega (arith, reports_of-append i rs r)

times-append :
    (i : ℕ) (is : List ℕ) (j : ℕ) → times i (is ++ j ∷ []) ≡ times i is + times i (j ∷ [])
times-append i [] j = omega arith
times-append i (k ∷ is) j = omega (arith, times-append i is j)

values_of-insert :
    (i : ℕ) (h : Bytes) (j : ℕ) (m : Map Bytes ℕ)
    → times i (values_of (insert h j m)) ≤ times i (values_of m) + times i (j ∷ [])
unfolding values_of insert
values_of-insert i h j [] = omega arith
values_of-insert i h j ((k, l) ∷ m) = ground (arith, values_of-insert i h j m)

values_of-delete :
    (i : ℕ) (h : Bytes) (m : Map Bytes ℕ) → times i (values_of (delete h m)) ≤ times i (values_of m)
unfolding values_of delete
values_of-delete i h [] = omega arith
values_of-delete i h ((k, l) ∷ m) = ground (arith, values_of-delete i h m)

values_of-delete_found :
    (i : ℕ) (h : Bytes) (j : ℕ) (m : Map Bytes ℕ)
    → lookup h m ≡ some j
    → times i (values_of (delete h m)) + times i (j ∷ []) ≤ times i (values_of m)
unfolding values_of delete lookup
values_of-delete_found i h j [] e = cc
values_of-delete_found i h j ((k, l) ∷ m) e =
    ground (arith, values_of-delete i h m, values_of-delete_found i h j m)

State : Type 0
State = Map Bytes ℕ × List Bytes × List ℕ

report_one-le :
    (i : ℕ) (h : Bytes) (m : Map Bytes ℕ) (ks : List Bytes) (found : List ℕ) (o : Option ℕ)
    → lookup h m ≡ o
    → let st = report_one o h (m, ks, found) in
      times i (values_of st.0) + times i st.2 ≤ times i (values_of m) + times i found
unfolding report_one
report_one-le i h m ks found none e = omega arith
report_one-le i h m ks found (some j) e =
    omega (arith, values_of-delete_found i h j m e, times-append i found j)

report_hashes-le :
    (i : ℕ) (hs : List Bytes) (m : Map Bytes ℕ) (ks : List Bytes) (found : List ℕ)
    → let st = report_hashes hs (m, ks, found) in
      times i (values_of st.0) + times i st.2 ≤ times i (values_of m) + times i found
unfolding report_hashes
report_hashes-le i [] m ks found = omega arith
report_hashes-le i (h ∷ hs) m ks found =
    let st = report_one (lookup h m) h (m, ks, found) in
    omega
      (arith, report_one-le i h m ks found (lookup h m) refl, report_hashes-le i hs st.0 st.1 st.2)

next_of-times :
    (i : ℕ) (e : Option Error) (is : List ℕ)
    → (times i (unreported (next_of e is)) ≡ times i is)
      × (times i (in_hand (next_of e is)) ≡ times i is)
unfolding next_of
next_of-times i none [] = (refl, refl)
next_of-times i (some e) [] = (refl, refl)
next_of-times i none (j ∷ is) = (refl, refl)
next_of-times i (some e) (j ∷ is) = (refl, refl)

unless_nil-le :
    (i : ℕ) (o : Option (Map Bytes ℕ)) (m : Map Bytes ℕ)
    → times i (values_of (entries_of (unless_nil o m))) ≤ times i (values_of m)
unfolding unless_nil entries_of values_of
unless_nil-le i none m = omega arith
unless_nil-le i (some m') m = omega arith

nothing_left : (i n : ℕ) → times i (values_of (entries_of none)) + n ≤ n
unfolding entries_of values_of
nothing_left i n = omega arith

unfoldable pub get_some : Confirmer → Option Confirmer → Confirmer
get_some s none = s
get_some s (some t) = t

IsSound-of : {t s' : Confirmer} → some t ≡ some s' → IsSound t → IsSound s'
unfolding get_some
IsSound-of {t} e h = subst IsSound (ap (get_some t) e) h

module _ (s : Confirmer) (sound : IsSound s) where
  open sound use {once, held}

  confirm_found-IsSound :
      (j : ℕ) (h : Bytes) (m : Map Bytes ℕ) (b : Bool)
      → s.pc j ≡ idle
      → s.pendings ≡ some m
      → IsSound (confirm_found j h m b s)
  unfolding confirm_found entries_of
  confirm_found-IsSound j h m true start there = record {
    once = λ i. ground (arith, once i, held i, reports_of-append i s.reports (committed j));
    held = λ i. ground (arith, once i, held i);
  }
  confirm_found-IsSound j h m false start there = record {
    once = λ i. ground (arith, once i, held i, values_of-insert i h j m);
    held = λ i. ground (arith, once i, held i, values_of-insert i h j m);
  }

  confirm_locked-IsSound :
      (j : ℕ) (h : Bytes) (o : Option (Map Bytes ℕ))
      → s.pc j ≡ idle
      → s.pendings ≡ o
      → IsSound (confirm_locked j h o s)
  unfolding confirm_locked entries_of
  confirm_locked-IsSound j h none start there = record {
    once = λ i. ground (arith, once i, held i);
    held = λ i. ground (arith, once i, held i);
  }
  confirm_locked-IsSound j h (some m) start there =
      confirm_found-IsSound j h m (has h s.done) start there

  confirm_at-IsSound :
      (p : Pc) (j : ℕ) (h : Bytes) (s' : Confirmer)
      → s.pc j ≡ p
      → confirm_at p j h s ≡ some s'
      → IsSound s'
  unfolding confirm_at
  confirm_at-IsSound idle j h s' start e =
      IsSound-of e (confirm_locked-IsSound j h s.pendings start refl)
  confirm_at-IsSound waiting j h s' start e = cc
  confirm_at-IsSound sending j h s' start e = cc
  confirm_at-IsSound (returned r) j h s' start e = cc

  -- What `run` takes over is no more than there was.
  taken-IsSound :
      (o : Option (Map Bytes ℕ)) (m : Map Bytes ℕ) (ks : List Bytes) (failure err : Option Error)
      (is : List ℕ)
      → s.runner ≡ polling
      → ((i : ℕ)
          → times i (values_of (entries_of o)) + times i is
            ≤ times i (values_of (entries_of s.pendings)))
      → IsSound (record s { pendings = o; done = ks; failure = failure; runner = next_of err is })
  taken-IsSound o m ks failure err is at_select le = record {
    once = λ i. ground (arith, once i, le i, next_of-times i err is);
    held = λ i. ground (arith, held i, le i, next_of-times i err is);
  }

  block_at-IsSound :
      (r : Runner) (hs : List Bytes) (s' : Confirmer)
      → s.runner ≡ r
      → block_at r hs s ≡ some s'
      → IsSound s'
  unfolding block_at
  block_at-IsSound polling hs s' at_select e =
      let st = report_hashes hs (entries_of s.pendings, s.done, []) in
      IsSound-of e (
        taken-IsSound (unless_nil s.pendings st.0) st.0 st.1 s.failure none st.2 at_select (λ i.
          omega (
            arith,
            unless_nil-le i s.pendings st.0,
            report_hashes-le i hs (entries_of s.pendings) s.done [],
          )))
  block_at-IsSound ended hs s' at_select e = cc
  block_at-IsSound (owing f is) hs s' at_select e = cc
  block_at-IsSound (giving f is) hs s' at_select e = cc

  flush_at-IsSound :
      (r : Runner) (f : Error) (s' : Confirmer)
      → s.runner ≡ r
      → flush_at r f s ≡ some s'
      → IsSound s'
  unfolding flush_at
  flush_at-IsSound polling f s' at_select e = IsSound-of e (
      taken-IsSound none [] s.done (some f) (some f) (values_of (entries_of s.pendings)) at_select
        (λ i. nothing_left i _))
  flush_at-IsSound ended f s' at_select e = cc
  flush_at-IsSound (owing f' is) f s' at_select e = cc
  flush_at-IsSound (giving f' is) f s' at_select e = cc

  reported-IsSound :
      (f : Option Error) (j : ℕ) (is : List ℕ) (r : Report)
      → s.runner ≡ owing f (j ∷ is)
      → ((i : ℕ) → is_of i r ≡ times i (j ∷ []))
      → IsSound (record s { runner = giving f (j ∷ is); reports = s.reports ++ r ∷ [] })
  reported-IsSound f j is r here same = record {
    once = λ i. ground (arith, once i, same i, reports_of-append i s.reports r);
    held = λ i. ground (arith, held i);
  }

  report_at-IsSound :
      (r : Runner) (s' : Confirmer) → s.runner ≡ r → report_at r s ≡ some s' → IsSound s'
  unfolding report_at
  report_at-IsSound (owing f (j ∷ is)) s' here e =
      IsSound-of e (reported-IsSound f j is (report_of f j) here (report_of-times f j))
  report_at-IsSound (owing f []) s' here e = cc
  report_at-IsSound (giving f is) s' here e = cc
  report_at-IsSound polling s' here e = cc
  report_at-IsSound ended s' here e = cc

  woken-IsSound :
      (f : Option Error) (j : ℕ) (is : List ℕ)
      → s.runner ≡ giving f (j ∷ is)
      → s.pc j ≡ waiting
      → IsSound (record s { pc = update s.pc j (returned f); runner = next_of f is })
  woken-IsSound f j is here there = record {
    once = λ i. ground (arith, once i, held i, next_of-times i f is);
    held = λ i. ground (arith, held i, next_of-times i f is);
  }

  hand_over-IsSound :
      (p : Pc) (f : Option Error) (j : ℕ) (is : List ℕ) (s' : Confirmer)
      → s.runner ≡ giving f (j ∷ is)
      → s.pc j ≡ p
      → hand_over p f j is s ≡ some s'
      → IsSound s'
  unfolding hand_over
  hand_over-IsSound waiting f j is s' here there e = IsSound-of e (woken-IsSound f j is here there)
  hand_over-IsSound idle f j is s' here there e = cc
  hand_over-IsSound sending f j is s' here there e = cc
  hand_over-IsSound (returned r) f j is s' here there e = cc

  deliver_at-IsSound :
      (r : Runner) (s' : Confirmer) → s.runner ≡ r → deliver_at r s ≡ some s' → IsSound s'
  unfolding deliver_at
  deliver_at-IsSound (giving f (j ∷ is)) s' here e =
      hand_over-IsSound (s.pc j) f j is s' here refl e
  deliver_at-IsSound (giving f []) s' here e = cc
  deliver_at-IsSound (owing f is) s' here e = cc
  deliver_at-IsSound polling s' here e = cc
  deliver_at-IsSound ended s' here e = cc

  locked-IsSound :
      (o : Option ℕ) (r : Option Confirmer) (s' : Confirmer)
      → ((t : Confirmer) → r ≡ some t → IsSound t)
      → locked o r ≡ some s'
      → IsSound s'
  unfolding locked
  locked-IsSound none r s' keep e = keep s' e
  locked-IsSound (some j) r s' keep e = cc

  step-IsSound : (ev : Event) (s' : Confirmer) → step ev s ≡ some s' → IsSound s'
  unfolding step
  step-IsSound (confirm j h) s' e =
      locked-IsSound s.holder _ s' (λ t. confirm_at-IsSound (s.pc j) j h t refl) e
  step-IsSound (block hs) s' e =
      locked-IsSound s.holder _ s' (λ t. block_at-IsSound s.runner hs t refl) e
  step-IsSound (flush f) s' e =
      locked-IsSound s.holder _ s' (λ t. flush_at-IsSound s.runner f t refl) e
  step-IsSound report s' e = report_at-IsSound s.runner s' refl e
  step-IsSound deliver s' e = deliver_at-IsSound s.runner s' refl e

  -- Every step keeps the invariant, and so does every sequence of steps.
  run_cons-IsSound :
      (o : Option Confirmer) (es : List Event) (s' : Confirmer)
      → ((t : Confirmer) → o ≡ some t → run es t ≡ some s' → IsSound s')
      → elim o as (λ _. Option Confirmer) [ none ↦ none | some t ↦ run es t ] ≡ some s'
      → IsSound s'
  run_cons-IsSound none es s' keep e = cc
  run_cons-IsSound (some t) es s' keep e = keep t refl e

pub run-IsSound : (es : List Event) (s s' : Confirmer) → IsSound s → run es s ≡ some s' → IsSound s'
unfolding run
run-IsSound [] s s' sound e = IsSound-of e sound
run-IsSound (ev ∷ es) s s' sound e =
    run_cons-IsSound s sound (step ev s) es s'
      (λ t first. run-IsSound es t s' (step-IsSound s sound ev t first)) e

pub new_confirmer-IsSound : IsSound new_confirmer
unfolding new_confirmer entries_of values_of
new_confirmer-IsSound = record { once = λ i. omega arith; held = λ i. omega arith }

pub begun-le : (p : Pc) → begun p ≤ 1
begun-le idle = omega arith
begun-le waiting = omega arith
begun-le sending = omega arith
begun-le (returned e) = omega arith

-- Whatever the order in which interactions are confirmed, blocks come and the confirmer is flushed, it
-- reports each interaction at most once, committed or aborted; and none whose confirmation has not
-- begun.
pub run-reports :
    (es : List Event) (s : Confirmer)
    → run es new_confirmer ≡ some s
    → (i : ℕ) → (reports_of i s.reports ≤ 1) × (s.pc i ≡ idle → reports_of i s.reports ≡ 0)
run-reports es s e i =
    let bound = (run-IsSound es new_confirmer s new_confirmer-IsSound e).once i in
    (omega (arith, begun-le (s.pc i)), λ start. ground (arith))
