-- ===== src/Expression/Follow.antt =====
-- core/benchmark.go: the errors of a chain of `Field` calls.
use diablo.Prelude.{ℕ, ℤ, List, [], ◌∷◌, Bytes, ◌≡◌, refl, inl, inr}
use diablo.Float.{Float64}
use diablo.Wire.Errors.{Error, Result, ok, err, and_then, Result-cases, Position}
use diablo.Scope.{Scope}
use diablo.Expression.{
  Expression, failed, field, mapping, sequence, scalar, alias, position, refuse, try_field,
  or_failed, field_of, get_resource, get_int, get_float, get_string,
}

-- The calls of `Field` with these names, one on what the other returns.
unfoldable pub follow : List Bytes → Expression → Expression
follow [] e = e
follow (name ∷ names) e = follow names (field_of name e)

-- The same with `TryField`, as far as it returns no error.
unfoldable pub try_follow : List Bytes → Expression → Result Expression
try_follow [] e = ok e
try_follow (name ∷ names) e = and_then (try_field name e) (λ e'. try_follow names e')

follow_failed :
    (names : List Bytes) (p : Position) (e : Error) → follow names (failed p e) ≡ failed p e
unfolding follow field_of
follow_failed [] p e = refl
follow_failed (name ∷ names) p e = follow_failed names p e

pub field_of_try :
    (name : Bytes) (e : Expression) → field_of name e ≡ or_failed (position e) (try_field name e)
unfolding field_of or_failed position try_field refuse
field_of_try name (failed p e) = refl
field_of_try name (field m k v) = refl
field_of_try name (mapping m index es) = refl
field_of_try name (sequence m es) = refl
field_of_try name (scalar m) = refl
field_of_try name (alias m) = refl

-- Reading at the end of a chain: what the checked chain returns is read, or its error returned.
unfoldable pub read_checked {ℓ} :
    {A : Type ℓ} → (Expression → Result A × Scope) → Scope → Result Expression → Result A × Scope
read_checked read scope (ok e) = read e
read_checked read scope (err e) = (err e, scope)

read-follow {ℓ} :
    {A : Type ℓ} (read : Expression → Result A × Scope) (scope : Scope)
    → ((p : Position) (e : Error) → read (failed p e) ≡ (err e, scope))
    → (names : List Bytes) (e : Expression)
    → read (follow names e) ≡ read_checked read scope (try_follow names e)
unfolding follow try_follow read_checked or_failed
read-follow read scope h [] e = refl
read-follow read scope h (name ∷ names) e =
    rw (field_of_try name e) (elim (Result-cases (try_field name e)) [
      | inl (e', q) ↦ rw q (read-follow read scope h names e')
      | inr (e', q) ↦ rw q (rw (follow_failed names (position e) e') (h (position e) e'))
    ])

-- Errors are not lost on the way: an integer, a float, a string or a resource that is read at the end of
-- a chain of `Field` calls is what reading gives after the same calls of `TryField` with each error
-- checked, and where one of these fails, the reading returns the error of the first that does and leaves
-- the scope as it was.
pub get-follow :
    (draw : ℕ) (scope : Scope) (to_float : ℤ → Float64) (domain : Bytes) (names : List Bytes)
    (e : Expression)
    → let checked = try_follow names e in
      (get_int draw scope (follow names e) ≡ read_checked (get_int draw scope) scope checked)
      × (get_float draw scope to_float (follow names e)
          ≡ read_checked (get_float draw scope to_float) scope checked)
      × (get_string draw scope (follow names e)
          ≡ read_checked (get_string draw scope) scope checked)
      × (get_resource draw scope domain (follow names e)
          ≡ read_checked (get_resource draw scope domain) scope checked)
unfolding get_int get_float get_string get_resource refuse
get-follow draw scope to_float domain names e = (
  read-follow (get_int draw scope) scope (λ p e'. refl) names e,
  read-follow (get_float draw scope to_float) scope (λ p e'. refl) names e,
  read-follow (get_string draw scope) scope (λ p e'. refl) names e,
  read-follow (get_resource draw scope domain) scope (λ p e'. refl) names e,
)
