-- ===== src/Random.antt =====
-- core/builtin.go: `uniformDistribution`, and the types of a random variable of core/variable.go. The
-- number that `rand.Int` draws is an argument.
pub mod Swap
pub mod Draws
pub mod Events
use diablo.Prelude.{
  ℕ, zero, suc, ◌-◌, ◌%◌, Bool, true, false, Option, none, some, List, [], ◌∷◌, pos, length,
  get_elem?, set, take, ◌==◌, if◌then◌else◌,
}
use diablo.Wire.Errors.{Error, Result, ok, err, index_out_of_range, random_space_exhausted}

-- TypeRegular, TypeOnce and TypeLoop
pub data VariableType : Type 0 where
  regular once loop : VariableType

-- `none` for a nil slice. The events that are left stand in the first `size` places.
pub record Uniform : Type 0 where
  pub rtype : VariableType
  pub size : ℕ
  pub values : Option (List ℕ)

-- `values[i] = i` from index `i` on.
unfoldable pub identity : ℕ → ℕ → List ℕ
identity i zero = []
identity i (suc n) = i ∷ identity (suc i) n

unfoldable pub is_regular : VariableType → Bool
is_regular regular = true
is_regular once = false
is_regular loop = false

unfoldable pub new_uniform : ℕ → VariableType → Uniform
unfolding is_regular
new_uniform size rtype = record {
  rtype = rtype;
  size = size;
  values = if is_regular rtype then none else some (identity 0 size);
}

-- `this.values[index]`, and the index itself where there are no values.
unfoldable pub event : Option (List ℕ) → ℕ → Option ℕ
event none index = some index
event (some vs) index = get_elem? vs index

-- When the last event has happened, an iterator stays empty and a loop starts again.
unfoldable pub restart : VariableType → ℕ → List ℕ → Uniform
restart rtype (suc size) vs = record { rtype = rtype; size = suc size; values = some vs }
restart regular zero vs = record { rtype = regular; size = 0; values = some vs }
restart once zero vs = record { rtype = once; size = 0; values = none }
restart loop zero vs = record { rtype = loop; size = length vs; values = some vs }

-- The event leaves the first places, in exchange with the last of them.
unfoldable pub discard : ℕ → ℕ → Uniform → Result ℕ × Uniform
discard index value d = elim d.values [
  | none ↦ (err (index_out_of_range (pos index)), d)
  | some vs ↦ elim (get_elem? vs (d.size - 1)) [
    | none ↦ (err (index_out_of_range (pos (d.size - 1))), d)
    | some last ↦
        (ok value, restart d.rtype (d.size - 1) (set (set vs index last) (d.size - 1) value))
  ]
]

unfoldable pub select_at : ℕ → Uniform → Result ℕ × Uniform
select_at index d = elim (event d.values index) [
  | none ↦ (err (index_out_of_range (pos index)), d)
  | some value ↦ if is_regular d.rtype then (ok value, d) else discard index value d
]

-- `Select`
unfoldable pub select : ℕ → Uniform → Result ℕ × Uniform
select draw d = if d.size == 0 then (err random_space_exhausted, d) else select_at (draw % d.size) d

-- `Copy` of the remaining events, as a variable of the type.
unfoldable pub copied_values : VariableType → ℕ → Option (List ℕ) → Option (List ℕ)
copied_values regular size none = none
copied_values once size none = some (identity 0 size)
copied_values loop size none = some (identity 0 size)
copied_values rtype size (some vs) = some (take size vs)

unfoldable pub copy : VariableType → Uniform → Uniform
unfolding copied_values
copy rtype d = record { rtype = rtype; size = d.size; values = copied_values rtype d.size d.values }

-- `Select` again and again, up to the first error.
unfoldable pub draws : List ℕ → Uniform → Result (List ℕ) × Uniform
draws [] d = (ok [], d)
draws (r ∷ rs) d =
    let (e, d') = select r d in
    elim e [
      | err e' ↦ (err e', d')
      | ok v ↦
          let (es, d'') = draws rs d' in
          elim es [ err e' ↦ (err e', d'') | ok vs ↦ (ok (v ∷ vs), d'') ]
    ]
