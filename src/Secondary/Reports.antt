-- ===== src/Secondary/Reports.antt =====
-- Which reports of an interaction count, of core/nsecondary.go.
use diablo.Prelude.{ℕ, Bool, ◌≡◌, refl, Option, none, some, List, [], ◌∷◌}
use diablo.Secondary.Lifecycle.{
  Step, submit, commit, abort, finish, Progress, not_started, keep_first, step, step_all,
}

-- The time of a step of one sort.
abbrev pub submitted : Step → Option ℕ
submitted (submit t) = some t
submitted (commit t) = none
submitted (abort t) = none
submitted (finish b) = none

abbrev pub committed : Step → Option ℕ
committed (submit t) = none
committed (commit t) = some t
committed (abort t) = none
committed (finish b) = none

abbrev pub aborted : Step → Option ℕ
aborted (submit t) = none
aborted (commit t) = none
aborted (abort t) = some t
aborted (finish b) = none

abbrev pub finished : Step → Option Bool
finished (submit t) = none
finished (commit t) = none
finished (abort t) = none
finished (finish b) = some b

abbrev pub or_else {ℓ} : {A : Type ℓ} → Option A → Option A → Option A
or_else none b = b
or_else (some a) b = some a

-- The first and the last step of a sort.
abbrev pub first_of {ℓ} : {A : Type ℓ} → (Step → Option A) → List Step → Option A
first_of f [] = none
first_of f (x ∷ xs) = or_else (f x) (first_of f xs)

abbrev pub last_of {ℓ} : {A : Type ℓ} → (Step → Option A) → List Step → Option A
last_of f [] = none
last_of f (x ∷ xs) = or_else (last_of f xs) (f x)

abbrev after : List Step → Progress → Progress
after xs p = record {
  submit_time = or_else p.submit_time (first_of submitted xs);
  commit_time = or_else p.commit_time (first_of committed xs);
  abort_time = or_else p.abort_time (first_of aborted xs);
  failed = or_else (last_of finished xs) p.failed;
}

or_else-none {ℓ} : {A : Type ℓ} (a : Option A) → or_else a none ≡ a
or_else-none none = refl
or_else-none (some a) = refl

or_else_assoc {ℓ} :
    {A : Type ℓ} (a b c : Option A) → or_else (or_else a b) c ≡ or_else a (or_else b c)
or_else_assoc none b c = refl
or_else_assoc (some a) b c = refl

keep_first-eq : (t : ℕ) (a : Option ℕ) → keep_first t a ≡ or_else a (some t)
unfolding keep_first
keep_first-eq t none = refl
keep_first-eq t (some t') = refl

step_all-after : (xs : List Step) (p : Progress) → step_all xs p ≡ after xs p
unfolding step_all step
step_all-after [] p = simp (or_else-none)
step_all-after (submit t ∷ xs) p =
    simp (step_all-after xs, keep_first-eq, or_else_assoc, or_else-none)
step_all-after (commit t ∷ xs) p =
    simp (step_all-after xs, keep_first-eq, or_else_assoc, or_else-none)
step_all-after (abort t ∷ xs) p =
    simp (step_all-after xs, keep_first-eq, or_else_assoc, or_else-none)
step_all-after (finish b ∷ xs) p =
    simp (step_all-after xs, keep_first-eq, or_else_assoc, or_else-none)

-- Of the reports of an interaction, in whatever order they came, the first submission, the first
-- commit and the first abort count, and the last end of its trigger.
pub step_all-first :
    (xs : List Step)
    → ((step_all xs not_started).submit_time ≡ first_of submitted xs)
      × ((step_all xs not_started).commit_time ≡ first_of committed xs)
      × ((step_all xs not_started).abort_time ≡ first_of aborted xs)
      × ((step_all xs not_started).failed ≡ last_of finished xs)
unfolding not_started
step_all-first xs = rw (step_all-after xs not_started) (refl, refl, refl, or_else-none _)
