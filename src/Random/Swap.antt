-- ===== src/Random/Swap.antt =====
-- The exchange by which core/builtin.go discards an event: it takes the event out of the first
-- places, and keeps all events.
use diablo.Prelude.{ℕ, zero, suc, ◌≤◌, ◌≡◌, some, List, [], ◌∷◌, get_elem?, set, take, arith}
use mathlib.Core.List.{Perm}
use mathlib.Core.List.Perm

module _ {ℓ} {A : Type ℓ} where
  -- The last of the first places to the front, in front of the others.
  take-last :
      (xs : List A) (t : ℕ) (v : A) {last : A}
      → get_elem? xs t ≡ some last
      → Perm (take (suc t) xs) (last ∷ take t (set xs t v))
  take-last [] t v e = cc
  take-last (x ∷ xs) zero v {last = last} e = let same : x ≡ last = cc in rw same Perm.rfl
  take-last (x ∷ xs) (suc t) v {last = last} e =
      Perm.trans (Perm.cons x (take-last xs t v e)) (Perm.swap last x (take t (set xs t v)))

  exchange_head :
      (xs : List A) (t : ℕ) (v : A) {last : A}
      → get_elem? xs t ≡ some last
      → Perm (v ∷ xs) (last ∷ set xs t v)
  exchange_head [] t v e = cc
  exchange_head (x ∷ xs) zero v {last = last} e =
      let same : x ≡ last = cc in rw same (Perm.swap last v xs)
  exchange_head (x ∷ xs) (suc t) v {last = last} e =
      Perm.trans (Perm.swap x v xs)
        (Perm.trans (Perm.cons x (exchange_head xs t v e)) (Perm.swap last x (set xs t v)))

  pub take-exchange :
      (xs : List A) (i t : ℕ) {v last : A}
      → i ≤ t
      → get_elem? xs i ≡ some v
      → get_elem? xs t ≡ some last
      → Perm (take (suc t) xs) (v ∷ take t (set (set xs i last) t v))
  take-exchange [] i t h e e' = cc
  take-exchange (x ∷ xs) zero zero {v = v} h e e' = let same : x ≡ v = cc in rw same Perm.rfl
  take-exchange (x ∷ xs) zero (suc t) {v = v} h e e' =
      let same : x ≡ v = cc in rw same (Perm.cons v (take-last xs t v e'))
  take-exchange (x ∷ xs) (suc i) zero h e e' = elim h [ ]
  take-exchange (x ∷ xs) (suc i) (suc t) {v = v} h e e' =
      Perm.trans (Perm.cons x (take-exchange xs i t (omega arith) e e')) (Perm.swap v x _)

  pub exchange :
      (xs : List A) (i t : ℕ) {v last : A}
      → i ≤ t
      → get_elem? xs i ≡ some v
      → get_elem? xs t ≡ some last
      → Perm xs (set (set xs i last) t v)
  exchange [] i t h e e' = cc
  exchange (x ∷ xs) zero zero {v = v} h e e' = let same : x ≡ v = cc in rw same Perm.rfl
  exchange (x ∷ xs) zero (suc t) {v = v} h e e' =
      let same : x ≡ v = cc in rw same (exchange_head xs t v e')
  exchange (x ∷ xs) (suc i) zero h e e' = elim h [ ]
  exchange (x ∷ xs) (suc i) (suc t) h e e' = Perm.cons x (exchange xs i t (omega arith) e e')
