-- ===== src/Random/Events.antt =====
-- The events of a random variable of core/builtin.go: an iterator's happen once, and a loop's all
-- happen before any happens again.
use diablo.Prelude.{
  ℕ, zero, suc, ◌+◌, ◌≤◌, ◌<◌, ◌≡◌, refl, sym, ap, ◌∙◌, false, Option, none, some, List, [], ◌∷◌,
  length, length-take, take-length, take, arith,
}
use mathlib.Core.Path.{subst}
use mathlib.Core.Logic.Or
use mathlib.Core.HLevel.{⊥_prop}
use native.Mathlib.Bridge.{le_prop}
use mathlib.Core.List.{Perm, Nodup, Nodup-cons, Pairwise, Mem, not-mem-nil, eq-or-mem_of_mem-cons}
use mathlib.Core.List.Perm
use diablo.Wire.Errors.{ok, err, random_space_exhausted}
use diablo.Random.{
  VariableType, once, loop, Uniform, identity, is_regular, new_uniform, restart, select, copy,
  copied_values, draws,
}
use diablo.Random.Draws.{left, draws-left}

pub length-identity : (i n : ℕ) → length (identity i n) ≡ n
unfolding identity
length-identity i zero = refl
length-identity i (suc n) = ap suc (length-identity (suc i) n)

-- All of `n` values of an iterator or a loop, drawn one after the other.
draws_all :
    (rtype : VariableType) (rs vs : List ℕ)
    → is_regular rtype ≡ false
    → length rs ≡ length vs
    → 0 < length vs
    → (out : List ℕ) × (vs' : List ℕ) × (draws rs (left rtype (length vs) vs)
        ≡ (ok out, restart rtype 0 vs'))
      × Perm vs out
      × Perm vs vs'
      × (length vs' ≡ length vs)
draws_all rtype rs [] h n some_left = elim some_left [ ]
draws_all rtype rs (v ∷ vs) h n some_left =
    let (out, vs', e, p, q, k) = draws-left rtype rs (length vs) (v ∷ vs) h n (omega arith) in
    (out, vs', e, subst (λ l. Perm l out) (take-length (v ∷ vs)) p, q, k)

exhausted :
    (rtype : VariableType) (values : Option (List ℕ)) (r : ℕ)
    → select r (record { rtype = rtype; size = 0; values = values })
      ≡ (err random_space_exhausted, record { rtype = rtype; size = 0; values = values })
unfolding select
exhausted rtype values r = refl

all_once :
    (rs vs : List ℕ)
    → length rs ≡ length vs
    → (out : List ℕ) × (d : Uniform) × (draws rs (left once (length vs) vs) ≡ (ok out, d))
      × Perm vs out
      × ((r : ℕ) → select r d ≡ (err random_space_exhausted, d))
unfolding draws restart is_regular
all_once [] [] n = ([], left once 0 [], refl, Perm.rfl, exhausted once (some []))
all_once (r ∷ rs) [] n = let no : ⊥ = omega arith in absurd no
all_once rs (v ∷ vs) n =
    let (out, vs', e, p, q, k) = draws_all once rs (v ∷ vs) refl n (omega arith) in
    (out, _, e, p, exhausted once none)

not-in_identity : (i n b : ℕ) → b < i → ¬ (Mem b (identity i n))
unfolding identity
not-in_identity i zero b h m = not-mem-nil m
not-in_identity i (suc n) b h m =
    Or.elim ⊥_prop (eq-or-mem_of_mem-cons m) (λ same. omega arith)
      (λ more. not-in_identity (suc i) n b (omega arith) more)

pub mem-identity : (i n b : ℕ) → Mem b (identity i n) → b < i + n
unfolding identity
mem-identity i zero b m = absurd (not-mem-nil m)
mem-identity i (suc n) b m =
    Or.elim le_prop (eq-or-mem_of_mem-cons m) (λ same. omega arith)
      (λ more. omega (arith, mem-identity (suc i) n b more))

Nodup-identity : (i n : ℕ) → Nodup (identity i n)
unfolding identity
Nodup-identity i zero = Pairwise.nil
Nodup-identity i (suc n) =
    Nodup-cons.1 (not-in_identity (suc i) n i (omega arith), Nodup-identity (suc i) n)

-- An iterator over `n` values that is asked `n` times returns each of them once, whatever numbers
-- were drawn, and from then on only the error of an exhausted variable.
pub draws-once :
    (n : ℕ) (rs : List ℕ)
    → length rs ≡ n
    → (out : List ℕ) × (d : Uniform) × (draws rs (new_uniform n once) ≡ (ok out, d))
      × Perm (identity 0 n) out
      × Nodup out
      × ((r : ℕ) → select r d ≡ (err random_space_exhausted, d))
unfolding new_uniform is_regular
draws-once n rs same =
    let k = length-identity 0 n in
    let (out, d, e, p, stop) = all_once rs (identity 0 n) (same ∙ sym k) in
    (out, d, rw k at e, p, Perm.nodup p (Nodup-identity 0 n), stop)

-- The events that a variable has left: without a slice of values they are the indices, each of which is
-- its own event, and with one they are the first values.
abbrev pub first_events : ℕ → Option (List ℕ) → List ℕ
first_events size none = identity 0 size
first_events size (some vs) = take size vs

abbrev pub events_left : Uniform → List ℕ
events_left d = first_events d.size d.values

-- As many values as there are events, where there is a slice of them.
abbrev pub Covers : ℕ → Option (List ℕ) → Type 0
Covers size none = Unit
Covers size (some vs) = size ≤ length vs

pub length-first_events :
    (size : ℕ) (values : Option (List ℕ))
    → Covers size values
    → length (first_events size values) ≡ size
length-first_events size none fits = length-identity 0 size
length-first_events size (some vs) fits = length-take vs size fits

copied_values-once :
    (size : ℕ) (values : Option (List ℕ))
    → copied_values once size values ≡ some (first_events size values)
unfolding copied_values
copied_values-once size none = refl
copied_values-once size (some vs) = refl

-- A copy, made as an iterator, of a variable of any type, with or without a slice of values, returns
-- each of the events that the variable has left once, whatever numbers were drawn, and then only the
-- error of an exhausted variable.
pub draws-copy :
    (d : Uniform) (rs : List ℕ)
    → Covers d.size d.values
    → length rs ≡ d.size
    → (out : List ℕ) × (d' : Uniform) × (draws rs (copy once d) ≡ (ok out, d'))
      × Perm (events_left d) out
      × ((r : ℕ) → select r d' ≡ (err random_space_exhausted, d'))
unfolding copy
draws-copy d rs fits same =
    let vs = events_left d in
    let k = length-first_events d.size d.values fits in
    let (out, d', e, p, stop) = all_once rs vs (same ∙ sym k) in
    (
      out,
      d',
      rw (copied_values-once d.size d.values) (ap (λ n. draws rs (left once n vs)) (sym k) ∙ e),
      p,
      stop,
    )

-- A loop over one or more values that is asked as often as it has values returns each of them once,
-- whatever numbers were drawn, and is then again a loop over all of them, in some order.
draws-loop :
    (rs vs : List ℕ)
    → length rs ≡ length vs
    → 0 < length vs
    → (out : List ℕ) × (vs' : List ℕ) × (draws rs (left loop (length vs) vs)
        ≡ (ok out, left loop (length vs') vs'))
      × Perm vs out
      × Perm vs vs'
unfolding restart is_regular
draws-loop rs vs n some_left =
    let (out, vs', e, p, q, k) = draws_all loop rs vs refl n some_left in (out, vs', e, p, q)
