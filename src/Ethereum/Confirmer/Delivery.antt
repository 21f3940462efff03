-- ===== src/Ethereum/Confirmer/Delivery.antt =====
-- When the confirmer of blockchains/nethereum/client.go answers a goroutine that waits, and when it never does.
use diablo.Prelude.{
  ℕ, zero, suc, ◌+◌, ◌≤◌, ◌≡◌, refl, ap, ◌∙◌, true, false, Option, none, some, List, [], ◌∷◌, ◌++◌,
  Bytes, bytes_eq, bytes_eq_iff, bytes_key, Map, lookup, length, ◌⊎◌, ◌==◌, Bool-cases, inl, inr,
  arith,
}
use mathlib.Core.Path.{subst}
use native.Mathlib.Nat.{le_trans}
use diablo.Wire.Errors.{Error}
use diablo.Ethereum.Confirmer.{
  Pc, idle, waiting, sending, returned, Runner, polling, ended, owing, giving, Confirmer,
  new_confirmer, update, delete, confirm_found, confirm_locked, report_one, report_hashes, next_of,
  report_of, Event, confirm, block, flush, report, deliver, confirm_at, entries_of, unless_nil,
  block_at, flush_at, report_at, hand_over, deliver_at, locked, step, run, has,
}
use diablo.Ethereum.Confirmer.Once.{
  times, reports_of, waits, IsSound, get_some, run-IsSound, new_confirmer-IsSound, begun-le,
  reports_of-append, report_of-times,
}

-- The goroutine of `i` has the lock and sends to itself.
abbrev pub IsStuck : ℕ → Confirmer → Type 0
IsStuck i s = (s.holder ≡ some i) × (s.pc i ≡ sending)

IsStuck-of : (i : ℕ) {t s' : Confirmer} → some t ≡ some s' → IsStuck i t → IsStuck i s'
unfolding get_some
IsStuck-of i {t} e h = subst (IsStuck i) (ap (get_some t) e) h

module _ (i : ℕ) (s : Confirmer) (stuck : IsStuck i s) where
  locked-none : (r : Option Confirmer) → locked s.holder r ≡ none
  unfolding locked
  locked-none r = rw stuck.0

  step-locked :
      (ev : Event) (r : Option Confirmer) → step ev s ≡ locked s.holder r → step ev s ≡ none
  step-locked ev r e = e ∙ locked-none r

  report_at-IsStuck : (r : Runner) (s' : Confirmer) → report_at r s ≡ some s' → IsStuck i s'
  unfolding report_at
  report_at-IsStuck (owing f (j ∷ is)) s' e = IsStuck-of i e stuck
  report_at-IsStuck (owing f []) s' e = cc
  report_at-IsStuck (giving f is) s' e = cc
  report_at-IsStuck polling s' e = cc
  report_at-IsStuck ended s' e = cc

  hand_over-IsStuck :
      (p : Pc) (f : Option Error) (j : ℕ) (is : List ℕ) (s' : Confirmer)
      → s.pc j ≡ p
      → hand_over p f j is s ≡ some s'
      → IsStuck i s'
  unfolding hand_over
  hand_over-IsStuck waiting f j is s' there e = IsStuck-of i e (stuck.0, ground arith)
  hand_over-IsStuck idle f j is s' there e = cc
  hand_over-IsStuck sending f j is s' there e = cc
  hand_over-IsStuck (returned r) f j is s' there e = cc

  deliver_at-IsStuck : (r : Runner) (s' : Confirmer) → deliver_at r s ≡ some s' → IsStuck i s'
  unfolding deliver_at
  deliver_at-IsStuck (giving f (j ∷ is)) s' e = hand_over-IsStuck (s.pc j) f j is s' refl e
  deliver_at-IsStuck (giving f []) s' e = cc
  deliver_at-IsStuck (owing f is) s' e = cc
  deliver_at-IsStuck polling s' e = cc
  deliver_at-IsStuck ended s' e = cc

  step-IsStuck : (ev : Event) (s' : Confirmer) → step ev s ≡ some s' → IsStuck i s'
  unfolding step
  step-IsStuck (confirm j h) s' e = let no = locked-none (confirm_at (s.pc j) j h s) in cc
  step-IsStuck (block hs) s' e = let no = locked-none (block_at s.runner hs s) in cc
  step-IsStuck (flush f) s' e = let no = locked-none (flush_at s.runner f s) in cc
  step-IsStuck report s' e = report_at-IsStuck s.runner s' e
  step-IsStuck deliver s' e = deliver_at-IsStuck s.runner s' e

  run_cons-IsStuck :
      (o : Option Confirmer) (es : List Event) (s' : Confirmer)
      → ((t : Confirmer) → o ≡ some t → run es t ≡ some s' → IsStuck i s')
      → elim o as (λ _. Option Confirmer) [ none ↦ none | some t ↦ run es t ] ≡ some s'
      → IsStuck i s'
  run_cons-IsStuck none es s' keep e = cc
  run_cons-IsStuck (some t) es s' keep e = keep t refl e

run-IsStuck :
    (i : ℕ) (es : List Event) (s s' : Confirmer) → IsStuck i s → run es s ≡ some s' → IsStuck i s'
unfolding run
run-IsStuck i [] s s' stuck e = IsStuck-of i e stuck
run-IsStuck i (ev ∷ es) s s' stuck e =
    run_cons-IsStuck i s stuck (step ev s) es s'
      (λ t first. run-IsStuck i es t s' (step-IsStuck i s stuck ev t first)) e

-- When a block held the transaction of an interaction before its confirmation began, the confirmation
-- takes the lock and then never returns, whatever happens afterwards: its goroutine stays blocked,
-- and no other confirmation begins, no block is processed, and nothing is flushed any more.
pub confirm-deadlock :
    (i : ℕ) (h : Bytes) (m : Map Bytes ℕ) (s : Confirmer)
    → s.holder ≡ none
    → s.pc i ≡ idle
    → s.pendings ≡ some m
    → has h s.done ≡ true
    → (s' : Confirmer) × (step (confirm i h) s ≡ some s')
      × ((es : List Event) (t : Confirmer)
          → run es s' ≡ some t
          → (t.pc i ≡ sending)
            × ((j : ℕ) (k : Bytes) → step (confirm j k) t ≡ none)
            × ((hs : List Bytes) → step (block hs) t ≡ none)
            × ((e : Error) → step (flush e) t ≡ none))
unfolding step locked confirm_at confirm_locked
confirm-deadlock i h m s free start there late = (
  confirm_found i h m true s,
  rw (free, start, there) (rw late refl),
  λ es t e.
      let stuck = run-IsStuck i es (confirm_found i h m true s) t (refl, ground arith) e in
      (
        stuck.1,
        λ j k. locked-none i t stuck _,
        λ hs. locked-none i t stuck _,
        λ e'. locked-none i t stuck _,
      ),
)

-- The steps of `run` over so many interactions: it reports each, and wakes it.
unfoldable pub rounds : ℕ → List Event
rounds zero = []
rounds (suc n) = report ∷ deliver ∷ rounds n

-- The interaction `i` reported and woken, and then all of them.
unfoldable pub settle : Option Error → ℕ → List ℕ → Confirmer → Confirmer
settle f i is s = record s {
  pc = update s.pc i (returned f);
  runner = next_of f is;
  reports = s.reports ++ report_of f i ∷ [];
}

unfoldable pub settle_all : Option Error → List ℕ → Confirmer → Confirmer
settle_all f [] s = s
settle_all f (i ∷ is) s = settle_all f is (settle f i is s)

next_of-owing : (f : Option Error) (i : ℕ) (is : List ℕ) → next_of f (i ∷ is) ≡ owing f (i ∷ is)
unfolding next_of
next_of-owing none i is = refl
next_of-owing (some e) i is = refl

waiting-of : (p : Pc) → 1 ≤ waits p → p ≡ waiting
waiting-of idle h = elim h [ ]
waiting-of waiting h = refl
waiting-of sending h = elim h [ ]
waiting-of (returned e) h = elim h [ ]

run_cons :
    (ev : Event) (es : List Event) (s t : Confirmer)
    → step ev s ≡ some t
    → run (ev ∷ es) s ≡ run es t
unfolding run
run_cons ev es s t e = rw (e, run) refl

report_at-owing :
    (r : Runner) (f : Option Error) (i : ℕ) (is : List ℕ) (s : Confirmer)
    → r ≡ owing f (i ∷ is)
    → report_at r s
      ≡ some (record s { runner = giving f (i ∷ is); reports = s.reports ++ report_of f i ∷ [] })
unfolding report_at
report_at-owing r f i is s e = rw e refl

hand_over-waiting :
    (p : Pc) (f : Option Error) (i : ℕ) (is : List ℕ) (s : Confirmer)
    → p ≡ waiting
    → hand_over p f i is s
      ≡ some (record s { pc = update s.pc i (returned f); runner = next_of f is })
unfolding hand_over
hand_over-waiting p f i is s e = rw e refl

module _ (f : Option Error) (i : ℕ) (is : List ℕ) (s : Confirmer) (sound : IsSound s)
    (here : s.runner ≡ owing f (i ∷ is)) where
  is_waiting : s.pc i ≡ waiting
  is_waiting = waiting-of (s.pc i) (ground (arith, sound.held i))

  told : Confirmer
  told = record s { runner = giving f (i ∷ is); reports = s.reports ++ report_of f i ∷ [] }

  step-deliver : step deliver told ≡ some (settle f i is s)
  unfolding step deliver_at told settle
  step-deliver = hand_over-waiting (s.pc i) f i is told is_waiting

  round-settle : (es : List Event) → run (report ∷ deliver ∷ es) s ≡ run es (settle f i is s)
  unfolding told
  round-settle es =
      run_cons report (deliver ∷ es) s told (unfold step in report_at-owing s.runner f i is s here)
      ∙ run_cons deliver es told (settle f i is s) step-deliver

  settle-IsSound : IsSound (settle f i is s)
  unfolding run
  settle-IsSound = run-IsSound (report ∷ deliver ∷ []) s (settle f i is s) sound (round-settle [])

rounds-settle_all :
    (f : Option Error) (is : List ℕ) (s : Confirmer)
    → IsSound s
    → s.runner ≡ next_of f is
    → run (rounds (length is)) s ≡ some (settle_all f is s)
unfolding rounds settle_all run
rounds-settle_all f [] s sound here = refl
rounds-settle_all f (i ∷ is) s sound here =
    let mine = here ∙ next_of-owing f i is in
    round-settle f i is s sound mine (rounds (length is))
    ∙ rounds-settle_all f is (settle f i is s) (settle-IsSound f i is s sound mine)
        (unfold settle in refl)

settle_all-reports :
    (f : Option Error) (is : List ℕ) (s : Confirmer) (j : ℕ)
    → reports_of j (settle_all f is s).reports ≡ reports_of j s.reports + times j is
unfolding settle_all settle report_of
settle_all-reports f [] s j = omega arith
settle_all-reports f (i ∷ is) s j = omega (
  arith,
  settle_all-reports f is (settle f i is s) j,
  reports_of-append j s.reports (report_of f i),
  report_of-times f i j,
)

settle_all-runner :
    (f : Option Error) (is : List ℕ) (s : Confirmer)
    → s.runner ≡ next_of f is
    → (settle_all f is s).runner ≡ next_of f []
unfolding settle_all settle
settle_all-runner f [] s here = here
settle_all-runner f (i ∷ is) s here = settle_all-runner f is (settle f i is s) refl

settle_all-pc :
    (f : Option Error) (is : List ℕ) (s : Confirmer) (j : ℕ)
    → (s.pc j ≡ returned f) ⊎ (1 ≤ times j is)
    → (settle_all f is s).pc j ≡ returned f
unfolding settle_all settle
settle_all-pc f [] s j (inl e) = e
settle_all-pc f [] s j (inr h) = elim h [ ]
settle_all-pc f (i ∷ is) s j h =
    settle_all-pc f is (settle f i is s) j (elim (Bool-cases (i == j)) [
      | inl same ↦ inl (rw same refl)
      | inr other ↦ elim h [ inl e ↦ inl (rw other e) | inr n ↦ inr (ground arith) ]
    ])

times-append_le : (i : ℕ) (is : List ℕ) (j : ℕ) → times i is ≤ times i (is ++ j ∷ [])
times-append_le i [] j = omega arith
times-append_le i (k ∷ is) j = omega (arith, times-append_le i is j)

times-append_last : (i : ℕ) (is : List ℕ) → 1 ≤ times i (is ++ i ∷ [])
times-append_last i [] = ground arith
times-append_last i (k ∷ is) = omega (arith, times-append_last i is)

report_one-grows :
    (i : ℕ) (o : Option ℕ) (h : Bytes) (m : Map Bytes ℕ) (ks : List Bytes) (found : List ℕ)
    → times i found ≤ times i (report_one o h (m, ks, found)).2
unfolding report_one
report_one-grows i none h m ks found = omega arith
report_one-grows i (some j) h m ks found = times-append_le i found j

report_hashes-grows :
    (i : ℕ) (hs : List Bytes) (m : Map Bytes ℕ) (ks : List Bytes) (found : List ℕ)
    → times i found ≤ times i (report_hashes hs (m, ks, found)).2
unfolding report_hashes
report_hashes-grows i [] m ks found = omega arith
report_hashes-grows i (h ∷ hs) m ks found =
    let st = report_one (lookup h m) h (m, ks, found) in
    omega
      (arith, report_one-grows i (lookup h m) h m ks found, report_hashes-grows i hs st.0 st.1 st.2)

lookup-delete :
    (k h : Bytes) (m : Map Bytes ℕ) → bytes_eq k h ≡ false → lookup h (delete k m) ≡ lookup h m
unfolding lookup delete
lookup-delete k h [] e = refl
lookup-delete k h ((l, j) ∷ m) e =
    ground (arith, bytes_eq_iff k h, bytes_eq_iff l h, bytes_eq_iff l k, lookup-delete k h m e)

report_one-keeps :
    (k h : Bytes) (m : Map Bytes ℕ) (ks : List Bytes) (found : List ℕ) (o : Option ℕ)
    → bytes_eq k h ≡ false
    → lookup h (report_one o k (m, ks, found)).0 ≡ lookup h m
unfolding report_one
report_one-keeps k h m ks found none e = refl
report_one-keeps k h m ks found (some j) e = lookup-delete k h m e

report_hashes-head :
    (i : ℕ) (k : Bytes) (hs : List Bytes) (m : Map Bytes ℕ) (ks : List Bytes) (found : List ℕ)
    (o : Option ℕ)
    → o ≡ some i
    → 1 ≤ times i (report_hashes hs (report_one o k (m, ks, found))).2
unfolding report_one
report_hashes-head i k hs m ks found o e = rw e (
    le_trans (times-append_last i found)
      (report_hashes-grows i hs (delete k m) ks (found ++ i ∷ [])))

-- A hash of the block that somebody waits for is found.
report_hashes-found :
    (i : ℕ) (h : Bytes) (hs : List Bytes) (m : Map Bytes ℕ) (ks : List Bytes) (found : List ℕ)
    → has h hs ≡ true
    → lookup h m ≡ some i
    → 1 ≤ times i (report_hashes hs (m, ks, found)).2
unfolding report_hashes has
report_hashes-found i h [] m ks found e there = cc
report_hashes-found i h (k ∷ hs) m ks found e there = elim (Bool-cases (bytes_eq k h)) [
  | inl same ↦
      let one = (bytes_eq_iff k h).0 same in
      report_hashes-head i k hs m ks found (lookup k m) (rw one there)
  | inr other ↦
      let st = report_one (lookup k m) k (m, ks, found) in
      report_hashes-found i h hs st.0 st.1 st.2 (rw other at e)
        (report_one-keeps k h m ks found (lookup k m) other ∙ there)
]

taken : List Bytes → Option (Map Bytes ℕ) → Confirmer → Option Confirmer
taken hs o s =
    let (m, ks, found) = report_hashes hs (entries_of o, s.done, []) in
    some (record s { pendings = unless_nil o m; done = ks; runner = next_of none found })

-- In every state that the confirmer can get into, with the lock free, `run` at its select and nothing
-- flushed: if the goroutine of an interaction waits under a hash, then a block that holds this hash
-- is processed to its end with no other goroutine's help than that those which wait receive; then
-- the goroutine has returned with no error, the interaction was reported exactly once, and `run` is
-- at its select again.
pub block-delivers :
    (es : List Event) (s : Confirmer) (m : Map Bytes ℕ) (i : ℕ) (h : Bytes) (hs : List Bytes)
    → run es new_confirmer ≡ some s
    → s.holder ≡ none
    → s.runner ≡ polling
    → s.pendings ≡ some m
    → lookup h m ≡ some i
    → has h hs ≡ true
    → (n : ℕ) × (t : Confirmer) × (run (block hs ∷ rounds n) s ≡ some t)
      × (t.pc i ≡ returned none)
      × (reports_of i t.reports ≡ 1)
      × (t.runner ≡ polling)
unfolding step locked block_at unless_nil entries_of taken run
block-delivers es s m i h hs reach free select open_ there held =
    let (m', ks, found) = report_hashes hs (m, s.done, []) in
    let t : Confirmer = record s { pendings = some m'; done = ks; runner = next_of none found } in
    let begins : step (block hs) s ≡ some t =
      ap (λ (g : Option ℕ). locked g (block_at s.runner hs s)) free
      ∙ ap (λ (r : Runner). locked none (block_at r hs s)) select
      ∙ ap (λ (o : Option (Map Bytes ℕ)). taken hs o s) open_ in
    let sound =
      run-IsSound (block hs ∷ []) s t (run-IsSound es new_confirmer s new_confirmer-IsSound reach)
        (run_cons (block hs) [] s t begins) in
    let ends = rounds-settle_all none found t sound refl in
    let some_time = report_hashes-found i h hs m s.done [] held there in
    (
      length found,
      settle_all none found t,
      run_cons (block hs) _ s t begins ∙ ends,
      settle_all-pc none found t i (inr some_time),
      omega (
        arith,
        settle_all-reports none found t i,
        (run-IsSound (rounds (length found)) t (settle_all none found t) sound ends).once i,
        begun-le ((settle_all none found t).pc i),
      ),
      settle_all-runner none found t refl,
    )
