-- ===== src/Tests/Events.antt =====
-- The random variables of core/builtin.go at concrete inputs.
use diablo.Prelude.{ℕ, ◌≡◌, refl, List, [], ◌∷◌}
use mathlib.Core.List.{Perm, Nodup}
use diablo.Wire.Errors.{ok, err, random_space_exhausted}
use diablo.Random.{Uniform, once, identity, new_uniform, select, draws}
use diablo.Random.Events.{draws-once}

abbrev three_draws : List ℕ
three_draws = 7 ∷ 4 ∷ 9 ∷ []

abbrev three_values : List ℕ
three_values = 2 ∷ 0 ∷ 1 ∷ []

draws-once_example :
    (out : List ℕ) × (d : Uniform) × (draws three_draws (new_uniform 3 once) ≡ (ok out, d))
    × Perm (identity 0 3) out
    × Nodup out
    × ((r : ℕ) → select r d ≡ (err random_space_exhausted, d))
draws-once_example = draws-once 3 three_draws refl

abbrev drawn : List ℕ
drawn = 1 ∷ 0 ∷ 2 ∷ []
