-- ===== src/Sample/Filtered.antt =====
-- What a filtered sample of core/builtin.go holds.
use diablo.Prelude.{
  ◌≡◌, refl, ap, Bool, true, false, List, [], ◌∷◌, Bytes, if◌then◌else◌, Bool-cases, inl, inr,
}
use diablo.Sample.{passes, fail_one, fail_all, none_failed, kept, new_filtered_sample}

-- The elements, in order, that satisfy a test.
abbrev pub keep_if {ℓ} : {A : Type ℓ} → (A → Bool) → List A → List A
keep_if p [] = []
keep_if p (x ∷ xs) = if p x then x ∷ keep_if p xs else keep_if p xs

-- Every member satisfies the test; some member does.
abbrev pub every {ℓ} : {A : Type ℓ} → (A → Bool) → List A → Bool
every p [] = true
every p (x ∷ xs) = if p x then every p xs else false

abbrev pub some_of {ℓ} : {A : Type ℓ} → (A → Bool) → List A → Bool
some_of p [] = false
some_of p (x ∷ xs) = if p x then true else some_of p xs

module _ {Filter Element : Type 0} (matches : Filter → Bytes → Bool)
    (tags : Element → List Bytes) where
  -- Every filter matches some tag of the element.
  abbrev pub satisfies : List Filter → Element → Bool
  satisfies filters e = every (λ f. some_of (matches f) (tags e)) filters

  passes-some : (f : Filter) (ts : List Bytes) → passes matches tags f ts ≡ some_of (matches f) ts
  unfolding passes
  passes-some f [] = refl
  passes-some f (t ∷ ts) = rw (passes-some f ts) refl

  -- One element's flag, through all filters.
  abbrev flag_after : List Filter → Element → Bool → Bool
  flag_after filters e true = true
  flag_after filters e false = if satisfies filters e then false else true

  -- The flag of the first element does not depend on the others.
  fail_all-cons :
      (filters : List Filter) (e : Element) (es : List Element) (b : Bool) (bs : List Bool)
      → fail_all matches tags filters (e ∷ es) (b ∷ bs)
        ≡ flag_after filters e b ∷ fail_all matches tags filters es bs
  unfolding fail_all fail_one
  fail_all-cons [] e es true bs = refl
  fail_all-cons [] e es false bs = refl
  fail_all-cons (f ∷ fs) e es true bs = fail_all-cons fs e es true (fail_one matches tags f es bs)
  fail_all-cons (f ∷ fs) e es false bs = elim (Bool-cases (some_of (matches f) (tags e))) [
    | inl met ↦
        rw (passes-some f (tags e), met)
          (fail_all-cons fs e es false (fail_one matches tags f es bs))
    | inr unmet ↦
        rw (passes-some f (tags e), unmet)
          (fail_all-cons fs e es true (fail_one matches tags f es bs))
  ]

  -- A filtered sample holds exactly the elements that have, for every filter, a tag that it matches,
  -- in the order in which they were given.
  pub new_filtered_sample-keep_if :
      (filters : List Filter) (es : List Element)
      → new_filtered_sample matches tags filters es ≡ keep_if (satisfies filters) es
  unfolding new_filtered_sample kept none_failed
  new_filtered_sample-keep_if filters [] = refl
  new_filtered_sample-keep_if filters (e ∷ es) = elim (Bool-cases (satisfies filters e)) [
    | inl met ↦
        rw (fail_all-cons filters e es false (none_failed matches tags es), met, kept)
          (ap (λ l. e ∷ l) (new_filtered_sample-keep_if filters es))
    | inr unmet ↦
        rw (fail_all-cons filters e es false (none_failed matches tags es), unmet, kept)
          (new_filtered_sample-keep_if filters es)
  ]
