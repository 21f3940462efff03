-- ===== src/Ethereum/Confirmer.antt =====
-- blockchains/nethereum/client.go: `pollblkTransactionConfirmer`. A call of `confirm` runs for each
-- interaction, and one goroutine, `run`, processes the blocks; they share a lock. A number stands for the
-- interaction and for the goroutine that confirms it. What happens between two blocking operations is one
-- step; a step that has to wait is `none`.
pub mod Once
pub mod Delivery
use diablo.Prelude.{
  ℕ, ◌+◌, Bool, true, false, Option, none, some, List, [], ◌∷◌, ◌++◌, Bytes, bytes_eq, bytes_key,
  Map, lookup, insert, ◌==◌, if◌then◌else◌,
}
use diablo.Wire.Errors.{Error}

pub data Report : Type 0 where
  committed aborted : ℕ → Report

-- Where the goroutine of an interaction is: before the call, blocked in `<-channel`, blocked in
-- `channel <- nil` with the lock held, or returned, with an error or nil.
pub data Pc : Type 0 where
  idle waiting sending : Pc
  returned : Option Error → Pc

-- Where `run` is: at the select, or at the loop of `reportHashes` or `flushPendings` over the
-- interactions that were pending. `owing` is before the report of the first, `giving` behind it, in
-- `pending.channel <- err`.
pub data Runner : Type 0 where
  polling ended : Runner
  owing giving : Option Error → List ℕ → Runner

pub record Confirmer : Type 0 where
  pub holder : Option ℕ
  pub failure : Option Error
  pub pendings : Option (Map Bytes ℕ)
  pub done : List Bytes
  pub pc : ℕ → Pc
  pub runner : Runner
  pub reports : List Report

-- `newPollblkTransactionConfirmer`
unfoldable pub new_confirmer : Confirmer
new_confirmer = record {
  holder = none;
  failure = none;
  pendings = some [];
  done = [];
  pc = λ i. idle;
  runner = polling;
  reports = [];
}

abbrev pub update {ℓ} : {A : Type ℓ} → (ℕ → A) → ℕ → A → ℕ → A
update f i a j = if i == j then a else f j

-- The set `committed` of hashes.
unfoldable pub has : Bytes → List Bytes → Bool
has h [] = false
has h (k ∷ ks) = let rest = has h ks in if bytes_eq k h then true else rest

unfoldable pub remove : Bytes → List Bytes → List Bytes
remove h [] = []
remove h (k ∷ ks) = let rest = remove h ks in if bytes_eq k h then rest else k ∷ rest

-- `delete(this.pendings, hash)`
unfoldable pub delete : Bytes → Map Bytes ℕ → Map Bytes ℕ
delete h [] = []
delete h ((k, i) ∷ m) = let rest = delete h m in if bytes_eq k h then rest else (k, i) ∷ rest

unfoldable pub values_of : Map Bytes ℕ → List ℕ
values_of [] = []
values_of ((k, i) ∷ m) = i ∷ values_of m

-- The critical section of `confirm` for the interaction `i`, whose hash is `h`. A hash that was reported
-- before is taken, the interaction reported, and the goroutine sends on a channel that only itself would
-- receive from.
unfoldable pub confirm_found : ℕ → Bytes → Map Bytes ℕ → Bool → Confirmer → Confirmer
confirm_found i h m true s = record s {
  holder = some i;
  done = remove h s.done;
  pc = update s.pc i sending;
  reports = s.reports ++ committed i ∷ [];
}
confirm_found i h m false s = record s {
  pendings = some (insert h i m);
  pc = update s.pc i waiting;
}

unfoldable pub confirm_locked : ℕ → Bytes → Option (Map Bytes ℕ) → Confirmer → Confirmer
unfolding confirm_found
confirm_locked i h none s = record s { pc = update s.pc i (returned s.failure) }
confirm_locked i h (some m) s = confirm_found i h m (has h s.done) s

-- The loop of `reportHashes` over the hashes of a block: the entries_of that are left, the hashes that
-- nobody waits for, and the interactions to report.
unfoldable pub report_one :
    Option ℕ → Bytes → Map Bytes ℕ × List Bytes × List ℕ → Map Bytes ℕ × List Bytes × List ℕ
report_one none h (m, ks, found) = (m, h ∷ ks, found)
report_one (some i) h (m, ks, found) = (delete h m, ks, found ++ i ∷ [])

unfoldable pub report_hashes :
    List Bytes → Map Bytes ℕ × List Bytes × List ℕ → Map Bytes ℕ × List Bytes × List ℕ
unfolding report_one
report_hashes [] st = st
report_hashes (h ∷ hs) st = report_hashes hs (report_one (lookup h st.0) h st)

-- After the loop the interactions are reported one after the other.
unfoldable pub next_of : Option Error → List ℕ → Runner
next_of none [] = polling
next_of (some e) [] = ended
next_of err (i ∷ rest) = owing err (i ∷ rest)

unfoldable pub report_of : Option Error → ℕ → Report
report_of none i = committed i
report_of (some e) i = aborted i

pub data Event : Type 0 where
  -- the critical section of `confirm`, with the hash of the transaction
  confirm : ℕ → Bytes → Event
  -- that of `reportHashes` for a new block, and of `flushPendings`
  block : List Bytes → Event
  flush : Error → Event
  -- `ReportCommit` or `ReportAbort` of the next interaction, and the send on its channel
  report deliver : Event

unfoldable pub confirm_at : Pc → ℕ → Bytes → Confirmer → Option Confirmer
unfolding confirm_locked
confirm_at idle i h s = some (confirm_locked i h s.pendings s)
confirm_at waiting i h s = none
confirm_at sending i h s = none
confirm_at (returned e) i h s = none

unfoldable pub entries_of : Option (Map Bytes ℕ) → Map Bytes ℕ
entries_of none = []
entries_of (some m) = m

-- A map that is nil stays nil.
unfoldable pub unless_nil : Option (Map Bytes ℕ) → Map Bytes ℕ → Option (Map Bytes ℕ)
unless_nil none m = none
unless_nil (some _) m = some m

unfoldable pub block_at : Runner → List Bytes → Confirmer → Option Confirmer
unfolding report_hashes next_of unless_nil
block_at polling hs s =
    let (m, ks, found) = report_hashes hs (entries_of s.pendings, s.done, []) in
    some (record s { pendings = unless_nil s.pendings m; done = ks; runner = next_of none found })
block_at ended hs s = none
block_at (owing e is) hs s = none
block_at (giving e is) hs s = none

unfoldable pub flush_at : Runner → Error → Confirmer → Option Confirmer
unfolding values_of next_of
flush_at polling e s = some (record s {
  pendings = none;
  failure = some e;
  runner = next_of (some e) (values_of (entries_of s.pendings));
})
flush_at ended e s = none
flush_at (owing e' is) e s = none
flush_at (giving e' is) e s = none

unfoldable pub report_at : Runner → Confirmer → Option Confirmer
unfolding report_of
report_at (owing e (i ∷ rest)) s =
    some (record s { runner = giving e (i ∷ rest); reports = s.reports ++ report_of e i ∷ [] })
report_at (owing e []) s = none
report_at (giving e is) s = none
report_at polling s = none
report_at ended s = none

-- The receiver is at its `<-channel`.
unfoldable pub hand_over : Pc → Option Error → ℕ → List ℕ → Confirmer → Option Confirmer
unfolding next_of
hand_over waiting e i rest s =
    some (record s { pc = update s.pc i (returned e); runner = next_of e rest })
hand_over idle e i rest s = none
hand_over sending e i rest s = none
hand_over (returned e') e i rest s = none

unfoldable pub deliver_at : Runner → Confirmer → Option Confirmer
unfolding hand_over
deliver_at (giving e (i ∷ rest)) s = hand_over (s.pc i) e i rest s
deliver_at (giving e []) s = none
deliver_at (owing e is) s = none
deliver_at polling s = none
deliver_at ended s = none

-- The three critical sections wait for the lock.
unfoldable pub locked : Option ℕ → Option Confirmer → Option Confirmer
locked none s = s
locked (some i) s = none

unfoldable pub step : Event → Confirmer → Option Confirmer
unfolding locked confirm_at block_at flush_at report_at deliver_at
step (confirm i h) s = locked s.holder (confirm_at (s.pc i) i h s)
step (block hs) s = locked s.holder (block_at s.runner hs s)
step (flush e) s = locked s.holder (flush_at s.runner e s)
step report s = report_at s.runner s
step deliver s = deliver_at s.runner s

-- A sequence of steps, in the order in which they happen.
unfoldable pub run : List Event → Confirmer → Option Confirmer
run [] s = some s
run (e ∷ es) s = elim (step e s) [ none ↦ none | some s' ↦ run es s' ]
