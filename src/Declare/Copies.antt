-- ===== src/Declare/Copies.antt =====
-- The copies that `parseVariable` of core/variable.go declares.
use diablo.Prelude.{
  ℕ, ◌≡◌, ◌≢◌, refl, ap, Option, [], ◌∷◌, Bytes, bytes_key, bytes_eq_iff, lookup, lookup-insert,
  arith,
}
use diablo.Wire.Errors.{Error, Result, ok, err}
use diablo.Random.{VariableType}
use diablo.Scope.{BasicScopeEntry, Scope, get_entry, add_entry, parse_scope}
use diablo.Expression.{Expression, name, etype, target, try_field, field_of, or_failed}
use diablo.Expression.Follow.{field_of_try}
use diablo.Declare.Texts.{seed_text, sample_text, copy_text}
use diablo.Declare.{
  Sample, variable_type, seed_of, nil_entry, parse_copy, parse_definition, parse_variable,
}

pub field_of-try_field : (s : Bytes) (x f : Expression) → try_field s x ≡ ok f → field_of s x ≡ f
unfolding or_failed
field_of-try_field s x f h = rw (field_of_try s x, h) refl

get_entry-add_entry_other :
    (n k : Bytes) (entry : BasicScopeEntry) (scope : Scope)
    → k ≢ n
    → get_entry n (add_entry k entry scope) ≡ get_entry n scope
unfolding get_entry add_entry
get_entry-add_entry_other n k entry [] h = refl
get_entry-add_entry_other n k entry (entries ∷ parent) h =
    ground (arith, lookup-insert k n entry entries, bytes_eq_iff k n)

module _ (sample_factory : Bytes → Option (Expression → Scope → Result Sample × Scope))
    (draw : Expression → ℕ) where
  pub seed_of-none :
      (x : Expression) (scope : Scope) {e : Error}
      → try_field seed_text x ≡ err e
      → seed_of sample_factory draw x scope ≡ (ok tt, scope)
  unfolding seed_of
  seed_of-none x scope none_there = rw (seed_of, none_there) refl

  parse_variable-nil :
      (x f : Expression) (scope : Scope) (n : Bytes) (vtype : VariableType) {e1 e2 e3 : Error}
      → name x ≡ ok n
      → variable_type (etype x) ≡ ok vtype
      → try_field seed_text x ≡ err e1
      → try_field sample_text x ≡ err e2
      → try_field copy_text x ≡ ok f
      → target f ≡ err e3
      → parse_variable sample_factory draw x scope ≡ (ok ([], nil_entry), scope)
  unfolding parse_variable seed_of parse_definition parse_copy
  parse_variable-nil x f scope n vtype named typed no_seed no_sample copied no_alias =
      rw (parse_variable, named, typed, seed_of-none x scope no_seed)
        (rw (parse_definition, no_sample, copied)
          (rw (ap (λ (r : Result {0} Unit × Scope). r.1) (seed_of-none x scope no_seed)) (
            ap (λ r. (r, scope))
              (rw (parse_copy, field_of-try_field copy_text x f copied, no_alias) refl))))

  -- A declaration that copies something other than an alias is no error, and declares nothing under its
  -- name: a scope with this declaration alone is parsed, and every name that is not empty, its own
  -- included, stands for what it stood for before.
  pub parse_variable-undeclared :
      (x f : Expression) (scope : Scope) (n : Bytes) (vtype : VariableType) {e1 e2 e3 : Error}
      → name x ≡ ok n
      → variable_type (etype x) ≡ ok vtype
      → try_field seed_text x ≡ err e1
      → try_field sample_text x ≡ err e2
      → try_field copy_text x ≡ ok f
      → target f ≡ err e3
      → (k : Bytes) → [] ≢ k
      → (result : Scope) × ((parse_scope (parse_variable sample_factory draw) (x ∷ []) [] scope
            ≡ ok result)
          × (get_entry k result ≡ get_entry k scope))
  unfolding parse_scope lookup
  parse_variable-undeclared x f scope n vtype named typed no_seed no_sample copied no_alias k
        other =
      (
        add_entry [] nil_entry scope,
        (
          (let nil =
                parse_variable-nil x f scope n vtype named typed no_seed no_sample copied
                  no_alias in
              rw (parse_scope, nil)
                (ap
                  (λ (r : Result (Bytes × BasicScopeEntry) × Scope).
                    ok (add_entry [] nil_entry r.1))
                  nil)),
          get_entry-add_entry_other k [] nil_entry scope other,
        ),
      )
