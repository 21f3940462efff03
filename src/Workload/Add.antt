-- ===== src/Workload/Add.antt =====
-- What `Add` of core/workload/workload.go changes.
use diablo.Prelude.{
  ℕ, zero, suc, ◌+◌, ◌-◌, ◌<◌, ◌≡◌, refl, ◌∙◌, List, [], ◌∷◌, ◌++◌, Bytes, length, length-append,
  ◌==◌, ◌&&◌, if◌then◌else◌, arith, Bool-cases, inl, inr,
}
use mathlib.Core.Path.{subst}
use diablo.Workload.{
  ThreadWorkload, SecondaryWorkload, Workload, grow, grow_to, modify, interval_add, thread_add,
  secondary_add, workload_add,
}

module _ {A : Type 0} (empty : A) where
  -- The element at an index, and an empty one where there is none.
  abbrev pub at : List A → ℕ → A
  at [] i = empty
  at (x ∷ xs) zero = x
  at (x ∷ xs) (suc i) = at xs i

  at-append_empty : (xs : List A) (i : ℕ) → at (xs ++ empty ∷ []) i ≡ at xs i
  at-append_empty [] zero = refl
  at-append_empty [] (suc i) = refl
  at-append_empty (x ∷ xs) zero = refl
  at-append_empty (x ∷ xs) (suc i) = at-append_empty xs i

  at-grow : (rounds : ℕ) (xs : List A) (i : ℕ) → at (grow empty rounds xs) i ≡ at xs i
  unfolding grow
  at-grow zero xs i = refl
  at-grow (suc rounds) xs i = at-grow rounds (xs ++ empty ∷ []) i ∙ at-append_empty xs i

  length-grow : (rounds : ℕ) (xs : List A) → length (grow empty rounds xs) ≡ rounds + length xs
  unfolding grow
  length-grow zero xs = omega arith
  length-grow (suc rounds) xs =
      omega (arith, length-grow rounds (xs ++ empty ∷ []), length-append xs (empty ∷ []))

  at-modify :
      (f : A → A) (xs : List A) (i j : ℕ)
      → i < length xs
      → at (modify i f xs) j ≡ (if i == j then f (at xs i) else at xs j)
  unfolding modify
  at-modify f [] i j h = elim h [ ]
  at-modify f (x ∷ xs) zero zero h = ground arith
  at-modify f (x ∷ xs) zero (suc j) h = ground arith
  at-modify f (x ∷ xs) (suc i) zero h = ground arith
  at-modify f (x ∷ xs) (suc i) (suc j) h = ground (arith, at-modify f xs i j (omega arith))

  -- Changing the element of an index, after the list was made long enough.
  pub at-grow_to :
      (f : A → A) (xs : List A) (i j : ℕ)
      → at (modify i f (grow_to empty i xs)) j ≡ (if i == j then f (at xs i) else at xs j)
  unfolding grow_to
  at-grow_to f xs i j =
      let n = length-grow (suc i - length xs) xs in
      at-modify f (grow empty (suc i - length xs) xs) i j (omega arith)
      ∙ rw (at-grow (suc i - length xs) xs i, at-grow (suc i - length xs) xs j) refl

-- The transactions of an interval; none where the workload has no such interval.
abbrev pub transactions : Workload → ℕ → ℕ → ℕ → List Bytes
transactions w secondary thread interval = at [] (at [] (at [] w secondary) thread) interval

thread_add-at :
    (i : ℕ) (tx : Bytes) (th : ThreadWorkload) (i' : ℕ)
    → at [] (thread_add i tx th) i' ≡ (if i == i' then at [] th i ++ tx ∷ [] else at [] th i')
unfolding thread_add interval_add
thread_add-at i tx th i' = at-grow_to [] (interval_add tx) th i i'

secondary_add-at :
    (t i : ℕ) (tx : Bytes) (sec : SecondaryWorkload) (t' i' : ℕ)
    → at [] (at [] (secondary_add t i tx sec) t') i' ≡ (
        if (t == t') && (i == i')
        then at [] (at [] sec t) i ++ tx ∷ []
        else at [] (at [] sec t') i')
unfolding secondary_add
secondary_add-at t i tx sec t' i' = elim (Bool-cases (t == t')) [
  | inl e ↦
      let same : t ≡ t' = ground arith in
      rw (at-grow_to [] (thread_add i tx) sec t t', e)
        (subst
          (λ u.
            at [] (thread_add i tx (at [] sec t)) i'
            ≡ (if i == i' then at [] (at [] sec t) i ++ tx ∷ [] else at [] (at [] sec u) i'))
          same (thread_add-at i tx (at [] sec t) i'))
  | inr e ↦ rw (at-grow_to [] (thread_add i tx) sec t t', e) refl
]

-- `Add` puts the transaction behind those of its secondary, thread and interval, and leaves those of
-- every other secondary, thread or interval alone.
pub transactions-workload_add :
    (s t i : ℕ) (tx : Bytes) (w : Workload) (s' t' i' : ℕ)
    → transactions (workload_add s t i tx w) s' t' i' ≡ (
        if (s == s') && (t == t') && (i == i')
        then transactions w s t i ++ tx ∷ []
        else transactions w s' t' i')
unfolding workload_add
transactions-workload_add s t i tx w s' t' i' = elim (Bool-cases (s == s')) [
  | inl e ↦
      let same : s ≡ s' = ground arith in
      rw (at-grow_to [] (secondary_add t i tx) w s s', e)
        (subst
          (λ u. at [] (at [] (secondary_add t i tx (at [] w s)) t') i' ≡ (
            if (t == t') && (i == i')
            then transactions w s t i ++ tx ∷ []
            else transactions w u t' i'))
          same (secondary_add-at t i tx (at [] w s) t' i'))
  | inr e ↦ rw (at-grow_to [] (secondary_add t i tx) w s s', e) refl
]
