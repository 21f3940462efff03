-- ===== src/Fuse/Least.antt =====
-- The stream that the inner loop of `fuseGenerators` of core/benchmark.go chooses.
use diablo.Prelude.{
  ℕ, zero, suc, ◌≤◌, ◌≡◌, refl, ◌∙◌, sym, true, false, some, List, [], ◌∷◌, ◌++◌, length,
  length-append, get_elem?, All, All-append, arith, Bool-cases, inl, inr,
}
use mathlib.Core.List.{append_assoc, append-nil}
use mathlib.Core.Path.{subst}
use diablo.Float.{IsNumber, rank, lt_float-rank}
use diablo.Fuse.{BenchmarkInteraction, replaces, min_from}

abbrev pub Stream : Type 0 → Type 0
Stream Rest = List (BenchmarkInteraction Rest)

module _ {Rest : Type 0} where
  -- Every time is a number.
  abbrev pub AreTimed : Stream Rest → Type 0
  AreTimed s = All (λ x. IsNumber x.schedule_time) s

  -- The first stream's next element is due at the latest when the second's is.
  abbrev pub Leads : Stream Rest → Stream Rest → Type 0
  Leads s [] = Unit
  Leads [] (y ∷ ys) = ⊥
  Leads (x ∷ xs) (y ∷ ys) = rank x.schedule_time ≤ rank y.schedule_time

  Leads-refl : (s : Stream Rest) → Leads s s
  Leads-refl [] = tt
  Leads-refl (x ∷ xs) = omega arith

  Leads-trans : (s t u : Stream Rest) → Leads s t → Leads t u → Leads s u
  Leads-trans s t [] h k = tt
  Leads-trans s [] (z ∷ zs) h k = absurd k
  Leads-trans [] (y ∷ ys) (z ∷ zs) h k = absurd h
  Leads-trans (x ∷ xs) (y ∷ ys) (z ∷ zs) h k = omega arith

  replaces-Leads :
      (s t : Stream Rest)
      → AreTimed s
      → AreTimed t
      → ((replaces s (some t) ≡ true) → Leads s t) × ((replaces s (some t) ≡ false) → Leads t s)
  unfolding replaces
  replaces-Leads [] t hs ht = (λ e. cc, λ e. tt)
  replaces-Leads (x ∷ xs) [] hs ht = (λ e. tt, λ e. cc)
  replaces-Leads (x ∷ xs) (y ∷ ys) hs ht =
      let e = lt_float-rank x.schedule_time y.schedule_time hs.0 ht.0 in
      (λ b. ground arith, λ b. ground arith)

  All-Leads :
      (s t : Stream Rest) (us : List (Stream Rest))
      → Leads s t
      → All (Leads t) us
      → All (Leads s) us
  All-Leads s t [] h k = tt
  All-Leads s t (u ∷ us) h k = (Leads-trans s t u h k.0, All-Leads s t us h k.1)

  pub All-get_elem? :
      (ss : List (Stream Rest)) (i : ℕ) (s : Stream Rest)
      → All AreTimed ss
      → get_elem? ss i ≡ some s
      → AreTimed s
  All-get_elem? [] i s h e = cc
  All-get_elem? (t ∷ ts) zero s h e = subst AreTimed (cc e) h.0
  All-get_elem? (t ∷ ts) (suc i) s h e = All-get_elem? ts i s h.1 e

  at_length :
      (pre : List (Stream Rest)) (s : Stream Rest) (ss : List (Stream Rest))
      → get_elem? (pre ++ s ∷ ss) (length pre) ≡ some s
  at_length [] s ss = refl
  at_length (t ∷ pre) s ss = at_length pre s ss

  min_from-split :
      (all pre ss : List (Stream Rest)) (i min : ℕ) (t : Stream Rest)
      → all ≡ pre ++ ss
      → i ≡ length pre
      → All AreTimed all
      → get_elem? all min ≡ some t
      → All (Leads t) pre
      → (u : Stream Rest) × (get_elem? all (min_from all ss i min) ≡ some u) × All (Leads u) all
  unfolding min_from
  min_from-split all pre [] i min t split at_i timed e h =
      (t, e, subst (All (Leads t)) (sym (split ∙ append-nil pre)) h)
  min_from-split all pre (s ∷ ss) i min t split at_i timed e h =
      let here : get_elem? all i ≡ some s = rw (split, at_i) (at_length pre s ss) in
      let split' : all ≡ (pre ++ s ∷ []) ++ ss = split ∙ sym (append_assoc pre (s ∷ []) ss) in
      let at_i' : suc i ≡ length (pre ++ s ∷ []) = omega (arith, length-append pre (s ∷ [])) in
      let order =
        replaces-Leads s t (All-get_elem? all i s timed here) (All-get_elem? all min t timed e) in
      elim (Bool-cases (replaces s (some t))) [
        | inl later ↦
            rw (e, later)
              (min_from-split all (pre ++ s ∷ []) ss (suc i) i s split' at_i' timed here (
                All-append (Leads s) pre (s ∷ []) (All-Leads s t pre (order.0 later) h)
                  (Leads-refl s, tt)))
        | inr kept ↦
            rw (e, kept)
              (min_from-split all (pre ++ s ∷ []) ss (suc i) min t split' at_i' timed e
                (All-append (Leads t) pre (s ∷ []) h (order.1 kept, tt)))
      ]

  -- The stream chosen exists, if there is any, and leads all.
  pub min_from-Leads :
      (s : Stream Rest) (ss : List (Stream Rest))
      → All AreTimed (s ∷ ss)
      → (u : Stream Rest) × (get_elem? (s ∷ ss) (min_from (s ∷ ss) (s ∷ ss) 0 0) ≡ some u)
        × All (Leads u) (s ∷ ss)
  min_from-Leads s ss timed = min_from-split (s ∷ ss) [] (s ∷ ss) 0 0 s refl refl timed refl tt
