-- ===== src/Declare.antt =====
-- core/variable.go: `parseVariable`, which reads the declaration of a variable in a scope.
pub mod Texts
pub mod Copies
pub mod Integers
use diablo.Prelude.{
  ℕ, Option, none, some, [], ◌∷◌, Bytes, bytes_eq, ℤ, pos, negsuc, suc, if◌then◌else◌,
}
use diablo.Wire.Errors.{
  Result, ok, err, and_then, Position, unknown_variable, unknown_variable_type, unknown_domain,
  unknown_random_type, not_a_seed, invalid_seed, no_definition, no_compose, no_normal, nil_variable,
  must_be, an_int, index_out_of_range,
}
use diablo.Random.{VariableType, regular, once, loop, Uniform, new_uniform}
use diablo.Variable.{Opaque, VariableImpl, copy_variable, try_get_int}
use diablo.Scope.{BasicScopeEntry, Scope, get_entry, put_variable, alias_int}
use diablo.Expression.{
  Expression, scalar, alias, position, name, etype, target, try_field, field_of, int_value,
  plain_value,
}
use diablo.Declare.Texts.{
  rvar_text, iter_text, loop_text, seed_text, sample_text, copy_text, compose_text, random_text,
  uniform_text, normal_text,
}

-- `Size` and `Get` of a sample.
pub record Sample : Type 0 where
  pub size : ℤ
  pub element : ℕ → Result Opaque

-- A declaration without a type is that of a `rvar`.
unfoldable pub variable_type : Result Bytes → Result VariableType
variable_type (err e) = ok regular
variable_type (ok t) =
    if bytes_eq t rvar_text
    then ok regular
    else if bytes_eq t iter_text
    then ok once
    else if bytes_eq t loop_text
    then ok loop
    else err (unknown_variable_type t)

unfoldable pub seed_value : Position → Result (Option ℤ) → Result ℤ
seed_value p (err e) = err e
seed_value p (ok none) = err (invalid_seed p)
seed_value p (ok (some i)) = ok i

unfoldable pub or_not_a_seed : Position → Result ℤ → Result ℤ
or_not_a_seed p (err e) = err (not_a_seed p)
or_not_a_seed p (ok i) = ok i

-- `parseSeed`, with the number that is drawn if the seed is a variable.
unfoldable pub parse_seed : ℕ → Expression → Scope → Result ℤ × Scope
unfolding seed_value or_not_a_seed
parse_seed draw (scalar m) scope =
    let e = must_be an_int m.place in (or_not_a_seed m.place (int_value e (plain_value m e)), scope)
parse_seed draw (alias m) scope = elim (alias_int m.content scope) [
  | err e ↦ (err (not_a_seed m.place), scope)
  | ok v ↦
      let (r, v') = try_get_int draw v in (seed_value m.place r, put_variable m.content v' scope)
]
parse_seed draw x scope = (err (not_a_seed (position x)), scope)

-- `randomFactory` and `instance`: the uniform distribution is the only one that there is.
unfoldable pub random_type : Position → Result Bytes → Result {0} Unit
random_type p (err e) = err e
random_type p (ok t) =
    if bytes_eq t uniform_text
    then ok tt
    else if bytes_eq t normal_text
    then err (no_normal p)
    else err (unknown_random_type t)

unfoldable pub random_of : Expression → Result {0} Unit
unfolding random_type
random_of x = elim (try_field random_text x) [
  | err e ↦ ok tt
  | ok f ↦ random_type (position f) (etype f)
]

-- `Instance` of the uniform distribution. `make` panics on a negative size; without it, the remainder by a
-- negative size is that by its absolute value.
unfoldable pub new_distribution : VariableType → ℤ → Result Uniform
unfolding new_uniform
new_distribution vtype (pos n) = ok (new_uniform n vtype)
new_distribution regular (negsuc n) = ok (new_uniform (suc n) regular)
new_distribution once (negsuc n) = err (index_out_of_range (negsuc n))
new_distribution loop (negsuc n) = err (index_out_of_range (negsuc n))

unfoldable pub new_entry : Bytes → VariableType → Sample → Result BasicScopeEntry
unfolding new_distribution
new_entry domain vtype sample = and_then (new_distribution vtype sample.size) (λ d. ok (record {
  variable = record { domain = domain; sample = sample.element; distrib = d };
  domain = domain;
}))

-- A nil variable, with the empty string as its domain.
abbrev pub nil_entry : BasicScopeEntry
nil_entry = record {
  variable = record { domain = []; sample = λ i. err nil_variable; distrib = new_uniform 0 once };
  domain = [];
}

-- `parseCopyVariable`. An expression to copy that is no alias is no error: nil is returned, without a
-- name.
unfoldable pub parse_copy :
    Bytes → VariableType → Expression → Scope → Result (Bytes × BasicScopeEntry)
parse_copy n vtype x scope = elim (target (field_of copy_text x)) [
  | err e ↦ ok ([], nil_entry)
  | ok source ↦ elim (get_entry source scope) [
    | none ↦ err (unknown_variable source)
    | some entry ↦
        ok (n, record { variable = copy_variable vtype entry.variable; domain = entry.domain })
  ]
]

-- The samples of the system and of the blockchain by their domains; the numbers that the seeds draw.
module _ (sample_factory : Bytes → Option (Expression → Scope → Result Sample × Scope))
    (draw : Expression → ℕ) where
  -- `parseSampleVariable`
  unfoldable pub parse_sample :
      Bytes → VariableType → Expression → Scope → Result (Bytes × BasicScopeEntry) × Scope
  unfolding random_of new_entry
  parse_sample n vtype x scope =
      let f = field_of sample_text x in
      elim (etype f) [
        | err e ↦ (err e, scope)
        | ok domain ↦ elim (sample_factory domain) [
          | none ↦ (err (unknown_domain domain), scope)
          | some instance_of ↦
              let (sample, scope') = instance_of f scope in
              (
                and_then sample (λ s.
                    and_then (random_of x)
                      (λ u. and_then (new_entry domain vtype s) (λ entry. ok (n, entry)))),
                scope',
              )
        ]
      ]

  -- Which of the three fields the declaration has.
  unfoldable pub parse_definition :
      Bytes → VariableType → Expression → Scope → Result (Bytes × BasicScopeEntry) × Scope
  unfolding parse_sample parse_copy
  parse_definition n vtype x scope = elim (try_field sample_text x) [
    | ok f ↦ parse_sample n vtype x scope
    | err e ↦ elim (try_field copy_text x) [
      | ok f ↦ (parse_copy n vtype x scope, scope)
      | err e' ↦ elim (try_field compose_text x) [
        | ok f ↦ (err (no_compose (position x)), scope)
        | err e'' ↦ (err (no_definition (position x)), scope)
      ]
    ]
  ]

  -- The seed, if there is one; its value only decides on the numbers that are drawn.
  unfoldable pub seed_of : Expression → Scope → Result {0} Unit × Scope
  unfolding parse_seed
  seed_of x scope = elim (try_field seed_text x) [
    | err e ↦ (ok tt, scope)
    | ok f ↦ let (r, scope') = parse_seed (draw x) f scope in (and_then r (λ i. ok tt), scope')
  ]

  unfoldable pub parse_variable : Expression → Scope → Result (Bytes × BasicScopeEntry) × Scope
  unfolding variable_type seed_of parse_definition
  parse_variable x scope = elim (name x) [
    | err e ↦ (err e, scope)
    | ok n ↦ elim (variable_type (etype x)) [
      | err e ↦ (err e, scope)
      | ok vtype ↦
          let (seed, scope') = seed_of x scope in
          elim seed [ err e ↦ (err e, scope') | ok u ↦ parse_definition n vtype x scope' ]
    ]
  ]
