-- ===== src/Schedule/Stable.antt =====
-- The order in which core/nsecondary.go sorts its interactions: by time, and stable.
use diablo.Prelude.{
  ℕ, ◌+◌, ◌≤◌, ◌≡◌, refl, ap, ◌∙◌, sym, List, [], ◌∷◌, ◌++◌, All, ◌==◌, arith, Bool-cases, inl, inr,
}
use mathlib.Core.Path.{subst}
use mathlib.Core.List.{Perm, append_assoc, append-nil, perm_middle}
use mathlib.Core.List.Perm
use diablo.Float.{Float64, IsNumber, rank, lt_float, lt_float-rank}
use diablo.Sample.Filtered.{keep_if}
use diablo.Schedule.{insert_by, sort_onto, slice_stable}

module _ {A : Type 0} (time : A → Float64) where
  abbrev pub IsFrom : ℕ → List A → Type 0
  IsFrom b xs = All (λ x. b ≤ rank (time x)) xs

  -- The times do not fall.
  abbrev pub IsSorted : List A → Type 0
  IsSorted [] = Unit
  IsSorted (x ∷ xs) = IsFrom (rank (time x)) xs × IsSorted xs

  abbrev pub AreNumbers : List A → Type 0
  AreNumbers xs = All (λ x. IsNumber (time x)) xs

  -- The elements of one time.
  abbrev pub at_rank : ℕ → List A → List A
  at_rank r xs = keep_if (λ x. rank (time x) == r) xs

  insert_by-IsFrom :
      (b : ℕ) (x : A) (ys : List A)
      → b ≤ rank (time x)
      → IsFrom b ys
      → IsFrom b (insert_by time x ys)
  unfolding insert_by
  insert_by-IsFrom b x [] h k = (h, tt)
  insert_by-IsFrom b x (y ∷ ys) h k = elim (Bool-cases (lt_float (time x) (time y))) [
    | inl earlier ↦ rw (earlier, insert_by) (h, (k.0, k.1))
    | inr later ↦ rw (later, insert_by) (k.0, insert_by-IsFrom b x ys h k.1)
  ]

  insert_by-AreNumbers :
      (x : A) (ys : List A) → IsNumber (time x) → AreNumbers ys → AreNumbers (insert_by time x ys)
  unfolding insert_by
  insert_by-AreNumbers x [] h k = (h, tt)
  insert_by-AreNumbers x (y ∷ ys) h k = elim (Bool-cases (lt_float (time x) (time y))) [
    | inl earlier ↦ rw (earlier, insert_by) (h, (k.0, k.1))
    | inr later ↦ rw (later, insert_by) (k.0, insert_by-AreNumbers x ys h k.1)
  ]

  IsFrom-weaken : (b c : ℕ) (xs : List A) → b ≤ c → IsFrom c xs → IsFrom b xs
  IsFrom-weaken b c [] h k = tt
  IsFrom-weaken b c (x ∷ xs) h k = (omega arith, IsFrom-weaken b c xs h k.1)

  insert_by-IsSorted :
      (x : A) (ys : List A)
      → IsNumber (time x)
      → AreNumbers ys
      → IsSorted ys
      → IsSorted (insert_by time x ys)
  unfolding insert_by
  insert_by-IsSorted x [] hx hys s = (tt, tt)
  insert_by-IsSorted x (y ∷ ys) hx hys s =
      let e = lt_float-rank (time x) (time y) hx hys.0 in
      elim (Bool-cases (lt_float (time x) (time y))) [
        | inl earlier ↦
            let below : rank (time x) ≤ rank (time y) = ground arith in
            rw (earlier, insert_by)
              ((below, IsFrom-weaken (rank (time x)) (rank (time y)) ys below s.0), s)
        | inr later ↦
            let above : rank (time y) ≤ rank (time x) = ground arith in
            rw (later, insert_by)
              (
                insert_by-IsFrom (rank (time y)) x ys above s.0,
                insert_by-IsSorted x ys hx hys.1 s.1,
              )
      ]

  insert_by-Perm : (x : A) (ys : List A) → Perm (x ∷ ys) (insert_by time x ys)
  unfolding insert_by
  insert_by-Perm x [] = Perm.rfl
  insert_by-Perm x (y ∷ ys) = elim (Bool-cases (lt_float (time x) (time y))) [
    | inl earlier ↦ rw (earlier, insert_by) Perm.rfl
    | inr later ↦
        rw (later, insert_by) (Perm.trans (Perm.swap y x ys) (Perm.cons y (insert_by-Perm x ys)))
  ]

  at_rank-later : (r : ℕ) (xs : List A) → IsFrom (r + 1) xs → at_rank r xs ≡ []
  at_rank-later r [] h = refl
  at_rank-later r (x ∷ xs) h = ground (arith, at_rank-later r xs h.1)

  -- An element comes behind those of its time.
  before_later :
      (r : ℕ) (x : A) (ys : List A)
      → IsFrom (rank (time x) + 1) ys
      → at_rank r (x ∷ ys) ≡ at_rank r ys ++ at_rank r (x ∷ [])
  before_later r x ys later = elim (Bool-cases (rank (time x) == r)) [
    | inl same ↦
        let k : rank (time x) ≡ r = ground arith in
        let none_same : at_rank r ys ≡ [] =
          at_rank-later r ys (subst (λ n. IsFrom (n + 1) ys) k later) in
        rw (none_same, same) refl
    | inr other ↦ rw other (sym (append-nil (at_rank r ys)))
  ]

  at_rank-insert_by :
      (r : ℕ) (x : A) (ys : List A)
      → IsNumber (time x)
      → AreNumbers ys
      → IsSorted ys
      → at_rank r (insert_by time x ys) ≡ at_rank r ys ++ at_rank r (x ∷ [])
  unfolding insert_by
  at_rank-insert_by r x [] hx hys s = refl
  at_rank-insert_by r x (y ∷ ys) hx hys s =
      let e = lt_float-rank (time x) (time y) hx hys.0 in
      elim (Bool-cases (lt_float (time x) (time y))) [
        | inl earlier ↦
            let below : rank (time x) + 1 ≤ rank (time y) = ground arith in
            rw (earlier, insert_by)
              (before_later r x (y ∷ ys)
                (below, IsFrom-weaken (rank (time x) + 1) (rank (time y)) ys below s.0))
        | inr later ↦
            rw (later, insert_by) (keep_cons r y ys x (at_rank-insert_by r x ys hx hys.1 s.1))
      ]
    where
      keep_cons :
          (r : ℕ) (y : A) (ys : List A) (x : A)
          → at_rank r (insert_by time x ys) ≡ at_rank r ys ++ at_rank r (x ∷ [])
          → at_rank r (y ∷ insert_by time x ys) ≡ at_rank r (y ∷ ys) ++ at_rank r (x ∷ [])
      keep_cons r y ys x h = elim (Bool-cases (rank (time y) == r)) [
        | inl same ↦ rw same (ap (λ l. y ∷ l) h)
        | inr other ↦ rw other h
      ]

  at_rank-append : (r : ℕ) (xs ys : List A) → at_rank r (xs ++ ys) ≡ at_rank r xs ++ at_rank r ys
  at_rank-append r [] ys = refl
  at_rank-append r (x ∷ xs) ys = elim (Bool-cases (rank (time x) == r)) [
    | inl same ↦ rw same (ap (λ l. x ∷ l) (at_rank-append r xs ys))
    | inr other ↦ rw other (at_rank-append r xs ys)
  ]

  sort_onto-IsSorted :
      (acc xs : List A)
      → AreNumbers acc
      → AreNumbers xs
      → IsSorted acc
      → IsSorted (sort_onto time acc xs)
        × Perm (acc ++ xs) (sort_onto time acc xs)
        × ((r : ℕ) → at_rank r (sort_onto time acc xs) ≡ at_rank r acc ++ at_rank r xs)
  unfolding sort_onto
  sort_onto-IsSorted acc [] ha hxs s =
      (s, rw (append-nil acc) Perm.rfl, λ r. sym (append-nil (at_rank r acc)))
  sort_onto-IsSorted acc (x ∷ xs) ha hxs s =
      let acc' = insert_by time x acc in
      let (s', p, k) =
        sort_onto-IsSorted acc' xs (insert_by-AreNumbers x acc hxs.0 ha) hxs.1
          (insert_by-IsSorted x acc hxs.0 ha s) in
      (
        s',
        Perm.trans (perm_middle acc xs)
            (Perm.trans (Perm.append_right xs (insert_by-Perm x acc)) p),
        λ r.
            k r
            ∙ ap (λ l. l ++ at_rank r xs) (at_rank-insert_by r x acc hxs.0 ha s)
            ∙ append_assoc (at_rank r acc) (at_rank r (x ∷ [])) (at_rank r xs)
            ∙ ap (λ l. at_rank r acc ++ l) (sym (at_rank-append r (x ∷ []) xs)),
      )

  pub slice_stable-IsSorted :
      (xs : List A)
      → AreNumbers xs
      → IsSorted (slice_stable time xs)
        × Perm xs (slice_stable time xs)
        × ((r : ℕ) → at_rank r (slice_stable time xs) ≡ at_rank r xs)
  unfolding slice_stable
  slice_stable-IsSorted xs h = sort_onto-IsSorted [] xs tt h tt

  sort_onto-AreNumbers :
      (acc xs : List A) → AreNumbers acc → AreNumbers xs → AreNumbers (sort_onto time acc xs)
  unfolding sort_onto
  sort_onto-AreNumbers acc [] ha hxs = ha
  sort_onto-AreNumbers acc (x ∷ xs) ha hxs =
      sort_onto-AreNumbers (insert_by time x acc) xs (insert_by-AreNumbers x acc hxs.0 ha) hxs.1

  pub slice_stable-AreNumbers : (xs : List A) → AreNumbers xs → AreNumbers (slice_stable time xs)
  unfolding slice_stable
  slice_stable-AreNumbers xs h = sort_onto-AreNumbers [] xs tt h
