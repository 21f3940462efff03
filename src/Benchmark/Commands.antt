-- ===== src/Benchmark/Commands.antt =====
-- What `instantiate` of core/benchmark.go gives to each secondary.
use diablo.Prelude.{
  ℕ, suc, ◌<◌, ◌≡◌, refl, ◌∙◌, ap, inl, inr, Bool-cases, Option-cases, Option, none, some, List, [],
  ◌∷◌, Bytes, ◌==◌, ==_iff, if◌then◌else◌, length, length-set, get_elem?, get_elem?-some,
  get_elem?-lt, get_elem?-set_self, get_elem?-set_other, set, All, arith,
}
use diablo.Float.{Float64}
use diablo.Wire.Errors.{Error, Result, ok, err}
use diablo.Fuse.{BenchmarkInteraction}
use diablo.Fuse.Least.{Stream}
use diablo.Primary.{RemoteSecondary, send_interaction}
use diablo.Primary.Script.{Command, send, perform, perform_all}
use diablo.Benchmark.{Task, send_to, instantiate}

module _ {Source State : Type 0}
    (instance_of : Source → ℕ → Float64 → State → Result Bytes × State) where
  -- The calls for the secondary with the number `j`: the interactions that are sent through its clients,
  -- in their order, each encoded with its number among all interactions.
  unfoldable pub commands : ℕ → Stream (Task Source) → State → ℕ → List Command
  commands i [] state j = []
  commands i (x ∷ xs) state j =
      let t = x.rest in
      let (r, state') = instance_of t.source i x.schedule_time state in
      let rest = commands (suc i) xs state' j in
      elim r [
        | err e ↦ []
        | ok b ↦ if t.secondary == j then send t.client t.kind x.schedule_time b ∷ rest else rest
      ]

  -- The factory returns no error.
  unfoldable pub AreEncoded : ℕ → Stream (Task Source) → State → Type 0
  AreEncoded i [] state = Unit
  AreEncoded i (x ∷ xs) state =
      let (r, state') = instance_of x.rest.source i x.schedule_time state in
      ((b : Bytes) × (r ≡ ok b)) × AreEncoded (suc i) xs state'

  -- A call that succeeds, as a part of the calls of every secondary.
  module _ (i : ℕ) (x : BenchmarkInteraction (Task Source)) (xs : Stream (Task Source))
      (state : State) (secondaries : List RemoteSecondary) (b : Bytes)
      (e : (instance_of x.rest.source i x.schedule_time state).0 ≡ ok b) (s : RemoteSecondary)
      (there : get_elem? secondaries x.rest.secondary ≡ some s)
      (sent_ok : (send_interaction x.rest.client x.rest.kind x.schedule_time b s).0 ≡ none) where
    -- The secondary after it.
    unfoldable called : RemoteSecondary
    called = (send_interaction x.rest.client x.rest.kind x.schedule_time b s).1

    send_to-call :
        send_to x.rest.secondary x.rest.client x.rest.kind x.schedule_time b secondaries
        ≡ (none, set secondaries x.rest.secondary called)
    unfolding send_to called
    send_to-call =
        rw (send_to, there) (ap (λ o. (o, set secondaries x.rest.secondary called)) sent_ok)

    instantiate-call :
        instantiate instance_of i (x ∷ xs) state secondaries
        ≡ instantiate instance_of
            (suc i)
            xs
            (instance_of x.rest.source i x.schedule_time state).1
            (set secondaries x.rest.secondary called)
    unfolding instantiate
    instantiate-call =
        rw (instantiate, e, send_to-call)
          (ap
            (λ (r : Option Error × List RemoteSecondary).
              instantiate instance_of (suc i) xs
                (instance_of x.rest.source i x.schedule_time state).1 r.1)
            send_to-call)

    after-call :
        (j : ℕ) (u : RemoteSecondary)
        → get_elem? secondaries j ≡ some u
        → (v : RemoteSecondary) × ((get_elem? (set secondaries x.rest.secondary called) j ≡ some v)
            × (perform_all (commands i (x ∷ xs) state j) u
                ≡ perform_all
                    (commands (suc i) xs (instance_of x.rest.source i x.schedule_time state).1 j)
                    v))
    unfolding commands perform_all perform called
    after-call j u here =
        let k = x.rest.secondary in
        elim (Bool-cases (k == j)) [
          | inl same ↦
              let k_j = (==_iff k j).0 same in
              let s_u : s ≡ u = cc in
              (
                called,
                (
                  rw (← k_j)
                      (get_elem?-set_self secondaries k called (get_elem?-lt secondaries k there)),
                  rw (commands, e, same) (rw (← s_u) (rw (perform_all, sent_ok) refl)),
                ),
              )
          | inr other ↦ (
            u,
            (
              get_elem?-set_other secondaries k j called (λ k_j. ground (arith, ==_iff k j)) ∙ here,
              rw (commands, e, other) refl,
            ),
          )
        ]

  first-ok :
      (c : Command) (cs : List Command) (s : RemoteSecondary)
      → (perform_all (c ∷ cs) s).0 ≡ none
      → (perform c s).0 ≡ none
  unfolding perform_all
  first-ok c cs s = elim (Option-cases (perform c s).0) [
    | inl fine ↦ λ h. fine
    | inr (e, fails) ↦ rw (perform_all, fails) (λ h. cc)
  ]

  first-sent :
      (i : ℕ) (x : BenchmarkInteraction (Task Source)) (xs : Stream (Task Source)) (state : State)
      (s : RemoteSecondary) (b : Bytes)
      → (instance_of x.rest.source i x.schedule_time state).0 ≡ ok b
      → (perform_all (commands i (x ∷ xs) state x.rest.secondary) s).0 ≡ none
      → (send_interaction x.rest.client x.rest.kind x.schedule_time b s).0 ≡ none
  unfolding commands perform
  first-sent i x xs state s b e =
      let t = x.rest in
      let same = (==_iff t.secondary t.secondary).1 refl in
      let rest = commands (suc i) xs (instance_of t.source i x.schedule_time state).1 t.secondary in
      rw (commands, e, same) (first-ok (send t.client t.kind x.schedule_time b) rest s)

  Gives : ℕ → Stream (Task Source) → State → List RemoteSecondary → List RemoteSecondary → Type 0
  Gives i xs state secondaries secondaries' =
      (j : ℕ) (s : RemoteSecondary)
      → get_elem? secondaries j ≡ some s
      → get_elem? secondaries' j ≡ some (perform_all (commands i xs state j) s).1

  instantiate-Gives :
      (i : ℕ) (xs : Stream (Task Source)) (state : State) (secondaries : List RemoteSecondary)
      → AreEncoded i xs state
      → All (λ x. x.rest.secondary < length secondaries) xs
      → ((j : ℕ) (s : RemoteSecondary)
          → get_elem? secondaries j ≡ some s
          → (perform_all (commands i xs state j) s).0 ≡ none)
      → (state' : State) × ((secondaries' : List RemoteSecondary) × ((instantiate instance_of i xs
                state secondaries
              ≡ (none, (state', secondaries')))
            × Gives i xs state secondaries secondaries'))
  unfolding instantiate commands AreEncoded Gives perform_all perform called
  instantiate-Gives i [] state secondaries encodes targets accepts =
      (state, (secondaries, (refl, λ j s here. here)))
  instantiate-Gives i (x ∷ xs) state secondaries ((b, q), encodes) (target, targets) accepts =
      let k = x.rest.secondary in
      let (s, there) = get_elem?-some secondaries k target in
      let sent_ok : (send_interaction x.rest.client x.rest.kind x.schedule_time b s).0 ≡ none =
        first-sent i x xs state s b q (accepts k s there) in
      let state' = (instance_of x.rest.source i x.schedule_time state).1 in
      let after = after-call i x xs state secondaries b q s there sent_ok in
      let next = called i x xs state secondaries b q s there sent_ok in
      let (final, (secondaries', (e, gives))) =
        instantiate-Gives (suc i) xs state' (set secondaries k next) encodes
          (rw (length-set secondaries k next) targets)
          (λ j v hv.
            let (u, here) = get_elem?-some secondaries j (
              omega (
                arith,
                get_elem?-lt (set secondaries k next) j hv,
                length-set secondaries k next,
              )) in
            let (v', (hv', same)) = after j u here in
            let v_v : v' ≡ v = cc in rw (← v_v) (rw (← same) (accepts j u here))) in
      (
        final,
        (
          secondaries',
          (
            rw (instantiate-call i x xs state secondaries b q s there sent_ok) e,
            λ j u here. let (v, (hv, same)) = after j u here in rw same (gives j v hv),
          ),
        ),
      )

  -- Every secondary gets its own calls, as if it were alone: suppose that the factory encodes every
  -- interaction, that every secondary exists, and that each secondary, given only the interactions of
  -- its own clients in their order (encoded with their numbers among all interactions), sends them
  -- without an error. Then `instantiate` ends without an error, and leaves each secondary as these calls
  -- do.
  pub instantiate-perform_all :
      (i : ℕ) (xs : Stream (Task Source)) (state : State) (secondaries : List RemoteSecondary)
      → AreEncoded i xs state
      → All (λ x. x.rest.secondary < length secondaries) xs
      → ((j : ℕ) (s : RemoteSecondary)
          → get_elem? secondaries j ≡ some s
          → (perform_all (commands i xs state j) s).0 ≡ none)
      → (j : ℕ) (s : RemoteSecondary) → get_elem? secondaries j ≡ some s
      → (state' : State) × ((secondaries' : List RemoteSecondary) × ((instantiate instance_of i xs
                state secondaries
              ≡ (none, (state', secondaries')))
            × (get_elem? secondaries' j ≡ some (perform_all (commands i xs state j) s).1)))
  unfolding Gives
  instantiate-perform_all i xs state secondaries encodes targets accepts j s here =
      let (state', (secondaries', (e, gives))) =
        instantiate-Gives i xs state secondaries encodes targets accepts in
      (state', (secondaries', (e, gives j s here)))
